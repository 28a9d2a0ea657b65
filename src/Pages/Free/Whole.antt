-- ===== src/Pages/Free/Whole.antt =====
-- `page_free` as a whole.
use oscs25_labs.Base.{
  ℕ, ◌+◌, ◌-◌, ◌*◌, ◌%◌, ◌<◌, ◌≡◌, ◌≢◌, ◌⊎◌, inl, inr, refl, true, false, List, [], ◌∷◌, arith, ltb,
  ◌==◌, ==_iff,
}
use oscs25_labs.Pages.{
  Pages, page_grouped, page_occupied, page_size, mem_size, block_max_order, total_page,
  to_block_idx, page_free,
}
use oscs25_labs.Pages.FreeLists.{take-IsFree}
use oscs25_labs.Pages.Invariant.{IsHeap}
use oscs25_labs.Pages.Free.{FreeLoop}
use oscs25_labs.Pages.Free.Loop.{inner_rounds, free_loop-FreeLoop}

pub to_block_idx_of_page : (t : ℕ) → t < total_page → to_block_idx (t * page_size) ≡ t
unfolding to_block_idx
to_block_idx_of_page t bound =
    let e : ltb mem_size (t * page_size) ≡ false = ground arith in rw e (omega arith)

-- Freeing an occupied block of a well-formed heap leaves a well-formed heap in which its pages lie in
-- a free block that has the largest order or whose buddy is not the head of a free block of the same
-- order, and no other used block is touched.
pub page_free-FreeLoop :
    {p : Pages} {order : ℕ → ℕ} {lists : ℕ → List ℕ} (t : ℕ)
    → IsHeap p [] order lists
    → t < total_page
    → p.status t ≡ page_occupied
    → FreeLoop p order (order t) t (page_free (t * page_size) p)
unfolding page_free
page_free-FreeLoop {p} {order} {lists} t heap bound st =
    let begins : p.status t ≢ page_grouped = λ e. omega arith in
    let block = heap.partition.block t bound begins in
    let in_hand : IsHeap p (t ∷ []) order lists = record {
      partition = heap.partition;
      orders = λ i b s out. heap.orders i b s refl;
      numbered = heap.numbered;
      free = take-IsFree t (rw st (omega arith)) heap.free;
    } in
    let k = order t in
    let whole : (t * page_size % page_size == 0) ≡ true = ground arith in
    let used : (p.status t == page_occupied) ≡ true = (==_iff _ _).1 st in
    rw (whole, to_block_idx_of_page t bound, used)
      (rw
        (inner_rounds p t k (block_max_order + 1 - k) 0 9 k (omega (arith, block.low)) (omega arith)
          block)
        (free_loop-FreeLoop (block_max_order + 1 - k) k t (omega (arith, block.low)) in_hand bound
          begins refl))

-- An address inside a page, or of a page where no occupied block begins, changes nothing.
pub page_free-ignored :
    (p : Pages) (addr : ℕ)
    → ((addr % page_size ≢ 0) ⊎ (p.status (to_block_idx addr) ≢ page_occupied))
    → page_free addr p ≡ p
unfolding page_free
page_free-ignored p addr (inl inside) =
    let e : (addr % page_size == 0) ≡ false = ground arith in rw e
page_free-ignored p addr (inr other) =
    let e : (p.status (to_block_idx addr) == page_occupied) ≡ false = ground arith in
    rw e (ground arith)
