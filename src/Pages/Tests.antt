-- ===== src/Pages/Tests.antt =====
-- The page allocator at the concrete heap of Pages/Sample.
use oscs25_labs.Base.{ℕ, ◌+◌, ◌-◌, ◌*◌, ◌^◌, ◌≤◌, ◌≡◌, refl, ◌⊎◌, some, List, [], ◌∷◌, arith, ◌==◌}
use oscs25_labs.Template.Links.{list_remove}
use oscs25_labs.Pages.{
  Pages, page_occupied, page_size, calculate_order, page_alloc, page_free, is_allocated,
  init_page_array, merge_page_block, free_list_pop, free_list_insert,
}
use oscs25_labs.Pages.Sample.{order, lists, pages, Covers-pair, heap}
use oscs25_labs.Pages.Order.{calculate_order-least}
use oscs25_labs.Pages.Alloc.{AllocOutcome, NoneFree, page_alloc-outcome}
use oscs25_labs.Pages.Free.{FreeLoop}
use oscs25_labs.Pages.Free.Whole.{page_free-FreeLoop}
use oscs25_labs.Pages.Clean.{IsClean}
use oscs25_labs.Pages.Cut.{Chosen, Reserved, reserve_round-Reserved}
use oscs25_labs.Pages.Reserve.{segment_block_seq, segment_loop, reserve_round}
use oscs25_labs.Pages.Owner.{is_allocated-head}
use oscs25_labs.Pages.Sequence.{
  HasHeap, Call, alloc_call, free_call, after, init_page_array-HasHeap, Returned,
  page_free-page_alloc,
}

calculate_order-least_example :
    (5000 ≤ 2 ^ calculate_order 5000 * page_size)
    × ((k : ℕ) → 5000 ≤ 2 ^ k * page_size → calculate_order 5000 ≤ k)
calculate_order-least_example = calculate_order-least 5000 (omega arith) (omega arith)

page_alloc-outcome_example : AllocOutcome pages order (calculate_order 5000) (page_alloc 5000 pages)
page_alloc-outcome_example = page_alloc-outcome heap 5000 (omega arith)

page_free-FreeLoop_example : FreeLoop pages order (order 5) 5 (page_free (5 * page_size) pages)
page_free-FreeLoop_example = page_free-FreeLoop 5 heap (omega arith) refl

-- Two blocks, of which the second one is given back, and an address that is none.
abbrev some_calls : List Call
some_calls = alloc_call 5000 ∷ alloc_call 0x1000 ∷ free_call 0x2000 ∷ free_call 0x123 ∷ []

init_page_array-HasHeap_example : HasHeap (after some_calls (init_page_array pages))
init_page_array-HasHeap_example =
    init_page_array-HasHeap some_calls pages (omega arith, (omega arith, tt))

page_free-page_alloc_example :
    ((t : ℕ) × ((page_alloc 5000 pages).0 ≡ t * page_size)
      × Returned pages
          (page_free (page_alloc 5000 pages).0 (page_alloc 5000 pages).1)
          order
          (calculate_order 5000)
          t)
    ⊎ ((page_alloc 5000 pages ≡ (0, pages)) × NoneFree pages (calculate_order 5000))
page_free-page_alloc_example = page_free-page_alloc heap 5000 (omega arith)

clean : IsClean pages lists
clean i bound out = (refl, refl)

-- The range of the page 3 alone asks for a block of order 0.
one_page : (m : ℕ) → segment_block_seq 3 (3 - 3 + 1) ≡ some m → m ≤ order 2
unfolding segment_block_seq segment_loop
one_page m e = let zero_order : m ≡ 0 = cc e in omega (arith, zero_order)

reserve_round-Reserved_example :
    (m : ℕ) × (p' : Pages) × (reserve_round 3 3 pages ≡ some (3 + 2 ^ m, p'))
    × Chosen 3 3 m
    × Reserved pages order 2 m 3 p'
reserve_round-Reserved_example =
    reserve_round-Reserved 3 3 2 heap clean (omega arith) (omega arith) Covers-pair (omega arith)
      one_page

is_allocated-head_example : is_allocated 0x3123 pages ≡ some (pages.status 2 == page_occupied)
is_allocated-head_example = is_allocated-head 0x3123 2 heap (omega arith) Covers-pair

-- A page cut from the free pair, and the pages 4 and 5 joined.
alloc_runs : (page_alloc 5000 pages).0 ≡ 0x2000
unfolding page_alloc calculate_order free_list_pop list_remove
alloc_runs = refl

free_runs : (page_free 0x5000 pages).status 4 ≡ 1
unfolding page_free merge_page_block free_list_insert
free_runs = refl
