-- ===== src/Pages/Sequence.antt =====
-- Calls of `page_alloc` and `page_free`, one after another, on memory that `init_page_array` has set
-- up.
use native.Mathlib.Decide.{ℕ_discrete}
use oscs25_labs.Base.{
  ℕ, ◌+◌, ◌*◌, ◌/◌, ◌%◌, ◌^◌, ◌≤◌, ◌<◌, ◌≡◌, ◌≢◌, ◌∙◌, ◌⊎◌, inl, inr, sym, ap, List, [], ◌∷◌, arith,
  subst,
}
use oscs25_labs.Pages.{
  Pages, page_occupied, page_size, mem_size, block_max_order, total_page, calculate_order,
  init_page_array, page_alloc, page_free, to_block_idx,
}
use oscs25_labs.Pages.Alloc.{AllocOutcome, Allocated, NoneFree, page_alloc-outcome}
use oscs25_labs.Pages.Free.{FreeLoop}
use oscs25_labs.Pages.Free.Whole.{page_free-FreeLoop, page_free-ignored, to_block_idx_of_page}
use oscs25_labs.Pages.Initial.{init_page_array-IsHeap}
use oscs25_labs.Pages.Invariant.{IsHeap, IsUsed}

-- A heap of some blocks.
abbrev pub HasHeap : Pages → Type 0
HasHeap p = (order : ℕ → ℕ) × (lists : ℕ → List ℕ) × IsHeap p [] order lists

pub data Call : Type 0 where
  alloc_call : (size : ℕ) → Call
  free_call : (addr : ℕ) → Call

abbrev pub after : List Call → Pages → Pages
after [] p = p
after (alloc_call size ∷ calls) p = after calls (page_alloc size p).1
after (free_call addr ∷ calls) p = after calls (page_free addr p)

-- Each address that is freed lies in memory.
abbrev pub InMemory : List Call → Type 0
InMemory [] = Unit
InMemory (alloc_call size ∷ calls) = InMemory calls
InMemory (free_call addr ∷ calls) = (addr < mem_size) × InMemory calls

outcome-HasHeap :
    {p : Pages} {order : ℕ → ℕ} (o : ℕ) (r : ℕ × Pages)
    → HasHeap p
    → AllocOutcome p order o r
    → HasHeap r.1
outcome-HasHeap o r heap (inl (t, order', lists', a)) = (order', lists', a.heap)
outcome-HasHeap o r heap (inr (e, none_free)) = subst (λ (q : ℕ × Pages). HasHeap q.1) (sym e) heap

page_alloc-HasHeap : (size : ℕ) (p : Pages) → HasHeap p → HasHeap (page_alloc size p).1
unfolding page_alloc
page_alloc-HasHeap size p (order, lists, heap) = elim (ℕ_discrete size 0) [
  | yes zero_size ↦ rw zero_size (order, lists, heap)
  | no ne ↦
      outcome-HasHeap (calculate_order size) (page_alloc size p) (order, lists, heap)
        (page_alloc-outcome heap size ne)
]

freed-HasHeap : {p p' : Pages} {order : ℕ → ℕ} (l u : ℕ) → FreeLoop p order l u p' → HasHeap p'
freed-HasHeap l u (order', lists', head, f) = (order', lists', f.heap)

page_free-HasHeap :
    (addr : ℕ) (p : Pages) → addr < mem_size → HasHeap p → HasHeap (page_free addr p)
page_free-HasHeap addr p inside (order, lists, heap) = elim (ℕ_discrete (addr % page_size) 0) [
  | no offset ↦ rw (page_free-ignored p addr (inl offset)) (order, lists, heap)
  | yes whole ↦
      let t = addr / page_size in
      let e : addr ≡ t * page_size = omega arith in
      let bound : t < total_page = omega arith in
      elim (ℕ_discrete (p.status t) page_occupied) [
        | yes used ↦
            subst (λ (a : ℕ). HasHeap (page_free a p)) (sym e)
              (freed-HasHeap (order t) t (page_free-FreeLoop t heap bound used))
        | no other ↦
            let at_page : to_block_idx addr ≡ t =
              ap to_block_idx e ∙ to_block_idx_of_page t bound in
            let not_used : p.status (to_block_idx addr) ≢ page_occupied =
              λ st. other (sym (ap p.status at_page) ∙ st) in
            rw (page_free-ignored p addr (inr not_used)) (order, lists, heap)
      ]
]

after-HasHeap :
    (calls : List Call) (p : Pages) → InMemory calls → HasHeap p → HasHeap (after calls p)
after-HasHeap [] p ok heap = heap
after-HasHeap (alloc_call size ∷ calls) p ok heap =
    after-HasHeap calls (page_alloc size p).1 ok (page_alloc-HasHeap size p heap)
after-HasHeap (free_call addr ∷ calls) p ok heap =
    after-HasHeap calls (page_free addr p) ok.1 (page_free-HasHeap addr p ok.0 heap)

-- Whatever memory page_array is in: behind init_page_array, and any calls of page_alloc and
-- page_free with addresses in memory, in any order, the pages are cut into aligned blocks, and each
-- free list holds just the free blocks of its order.
pub init_page_array-HasHeap :
    (calls : List Call) (p : Pages) → InMemory calls → HasHeap (after calls (init_page_array p))
init_page_array-HasHeap calls p ok =
    let (lists, heap, _) = init_page_array-IsHeap p in
    after-HasHeap calls (init_page_array p) ok (λ _. block_max_order, lists, heap)

-- The block at `t` is free again: its pages lie in a free block, and the blocks that were used are
-- used as before.
pub record Returned (p p' : Pages) (order : ℕ → ℕ) (o t : ℕ) : Type 0 where
  pub order' : ℕ → ℕ
  pub lists' : ℕ → List ℕ
  pub head : ℕ
  pub heap : IsHeap p' [] order' lists'
  pub free : p'.status head ≤ block_max_order
  pub above : head ≤ t
  pub below : t + 2 ^ o ≤ head + 2 ^ order' head
  pub kept : (i : ℕ) → IsUsed p.status i → (p'.status i ≡ p.status i) × (order' i ≡ order i)

module _ {p : Pages} {order : ℕ → ℕ} {lists : ℕ → List ℕ} (heap : IsHeap p [] order lists) where
  Allocated-Returned :
      (o : ℕ) (r : ℕ × Pages) (order' : ℕ → ℕ) (lists' : ℕ → List ℕ) (t : ℕ)
      → Allocated p order o r order' lists' t
      → Returned p (page_free r.0 r.1) order o t
  Allocated-Returned o r order' lists' t a =
      let (order'', lists'', head, f) = page_free-FreeLoop t a.heap a.bound a.status in
      subst (λ (addr : ℕ). Returned p (page_free addr r.1) order o t) (sym a.address)
        (record {
          order' = order'';
          lists' = lists'';
          head = head;
          heap = f.heap;
          free = f.free;
          above = f.above;
          below = rw⁻¹ a.level f.below;
          kept = λ i u.
              let (same, same') = a.kept i u in
              let ne : i ≢ t = λ e. omega (arith, u.high, ap p.status e, a.was_free) in
              let used : IsUsed r.1.status i = record {
                bound = u.bound;
                high = rw same u.high;
                begins = λ e. u.begins (sym same ∙ e);
              } in
              let (then_, then') = f.kept i ne used in (then_ ∙ same, then' ∙ same');
        })

  -- On a well-formed heap, a request that is not for 0 bytes is served and its address is freed: the
  -- heap is well-formed, the pages of the block lie in a free block again, and all blocks that were
  -- used are used as before. If it is not served, no block is large enough, and nothing changes.
  pub page_free-page_alloc :
      (size : ℕ)
      → size ≢ 0
      → ((t : ℕ) × ((page_alloc size p).0 ≡ t * page_size)
          × Returned p
              (page_free (page_alloc size p).0 (page_alloc size p).1)
              order
              (calculate_order size)
              t)
        ⊎ ((page_alloc size p ≡ (0, p)) × NoneFree p (calculate_order size))
  page_free-page_alloc size ne = elim (page_alloc-outcome heap size ne) [
    | inl (t, order', lists', a) ↦ inl (
      t,
      a.address,
      Allocated-Returned (calculate_order size) (page_alloc size p) order' lists' t a,
    )
    | inr failed ↦ inr failed
  ]
