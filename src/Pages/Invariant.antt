-- ===== src/Pages/Invariant.antt =====
-- The invariant of the allocator: a partition of the pages into blocks, and free lists that hold
-- exactly the free blocks.
use native.Mathlib.Decide.{ℕ_discrete}
use oscs25_labs.Base.{
  ℕ, ◌≤◌, ◌<◌, ◌≡◌, ◌≢◌, ◌∙◌, sym, ap, refl, false, List, [], ◌∷◌, arith, update, update-ne,
  update_self, mem, mem-head, cons-not-mem,
}
use oscs25_labs.Pages.{Pages, page_grouped, block_max_order, total_page, set_status}
use oscs25_labs.Pages.Shape.{IsPartition}
use oscs25_labs.Pages.FreeLists.{IsFree, set_status-IsFree, drop-IsFree}

-- `order` gives the order of each block, used or free; `hand` are the blocks that an operation holds.
pub record IsHeap (p : Pages) (hand : List ℕ) (order : ℕ → ℕ) (lists : ℕ → List ℕ) : Type 0 where
  pub partition : IsPartition p.status order
  pub orders :
      (i : ℕ)
      → i < total_page
      → p.status i ≤ block_max_order
      → mem i hand ≡ false
      → order i ≡ p.status i
  pub numbered : (i : ℕ) → i < total_page → p.idx i ≡ i
  pub free : IsFree p hand lists

-- An occupied or a reserved block begins at `i`.
pub record IsUsed (status : ℕ → ℕ) (i : ℕ) : Type 0 where
  pub bound : i < total_page
  pub high : block_max_order < status i
  pub begins : status i ≢ page_grouped

-- A block gets another status that is not grouped.
pub set_status-IsPartition :
    {status order : ℕ → ℕ} (t v : ℕ)
    → v ≢ page_grouped
    → status t ≢ page_grouped
    → IsPartition status order
    → IsPartition (update status t v) order
set_status-IsPartition {status} {order} t v hv ht part = record {
  block = λ i bound ne.
      let b = part.block i bound (was i ne) in
      record {
        low = b.low;
        aligned = b.aligned;
        inside = b.inside;
        grouped = λ j lo hi. same j (b.grouped j lo hi);
      };
  cover = λ i bound.
      let (c, cov) = part.cover i bound in
      (c, record { begins = now c cov.begins; above = cov.above; below = cov.below });
}
  where
    same : (j : ℕ) → status j ≡ page_grouped → update status t v j ≡ page_grouped
    same j e = update-ne status t v j (λ e'. ht (ap status (sym e') ∙ e)) ∙ e

    was : (i : ℕ) → update status t v i ≢ page_grouped → status i ≢ page_grouped
    was i ne e = ne (same i e)

    now : (i : ℕ) → status i ≢ page_grouped → update status t v i ≢ page_grouped
    now i ne = elim (ℕ_discrete i t) [
      | yes e ↦ λ e'. hv (sym (rw (e, update_self status t v) refl) ∙ e')
      | no other ↦ λ e'. ne (sym (update-ne status t v i other) ∙ e')
    ]

too_high : (v : ℕ) → block_max_order < v → v ≤ block_max_order → ⊥
too_high v h k = omega arith

-- A block in hand becomes a used one, and is in hand no longer.
pub settle-IsHeap :
    {p : Pages} {order : ℕ → ℕ} {lists : ℕ → List ℕ} (t v : ℕ)
    → v ≢ page_grouped
    → block_max_order < v
    → p.status t ≢ page_grouped
    → IsHeap p (t ∷ []) order lists
    → IsHeap (set_status t v p) [] order lists
settle-IsHeap {p} {order} t v hv high ht heap = record {
  partition = set_status-IsPartition t v hv ht heap.partition;
  orders = settled;
  numbered = heap.numbered;
  free =
      drop-IsFree t (rw (update_self p.status t v) high)
        (set_status-IsFree t v (mem-head t []) heap.free);
}
  where
    settled :
        (i : ℕ)
        → i < total_page
        → update p.status t v i ≤ block_max_order
        → mem i [] ≡ false
        → order i ≡ update p.status t v i
    settled i b s out = elim (ℕ_discrete i t) [
      | yes e ↦ absurd (too_high v high (rw (e, update_self p.status t v) at s))
      | no ne ↦
          let e = update-ne p.status t v i ne in
          heap.orders i b (rw e at s) (cons-not-mem i t [] ne refl) ∙ sym e
    ]
