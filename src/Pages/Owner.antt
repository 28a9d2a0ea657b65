-- ===== src/Pages/Owner.antt =====
-- `is_allocated`: the block in which a page lies is found by clearing digits of the index.
use Prim.Native.Nat.{bit_and}
use native.Mathlib.Decide.{ℕ_discrete}
use oscs25_labs.Base.{
  ℕ, zero, suc, ◌+◌, ◌-◌, ◌*◌, ◌/◌, ◌%◌, ◌^◌, ◌≤◌, ◌<◌, ◌≡◌, ◌≢◌, ◌∙◌, ap, true, false, some, List,
  [], arith, ltb, ◌==◌, ==_iff,
}
use oscs25_labs.Base.LowBit.{clear_lowest}
use oscs25_labs.Pages.{
  Pages, page_grouped, page_occupied, page_size, mem_size, to_block_idx, find_parent, is_allocated,
}
use oscs25_labs.Pages.Shape.{IsBlock, Covers}
use oscs25_labs.Pages.Invariant.{IsHeap}

pub find_parent-head :
    {status : ℕ → ℕ} (fuel parent c k : ℕ)
    → IsBlock status c k
    → status c ≢ page_grouped
    → c ≤ parent
    → parent < c + 2 ^ k
    → parent < fuel + c
    → find_parent fuel status parent ≡ some c
unfolding find_parent
find_parent-head zero parent c k block begins lo hi enough = absurd (omega arith)
find_parent-head {status} (suc fuel) parent c k block begins lo hi enough =
    elim (ℕ_discrete parent c) [
      | yes e ↦
          let stop : (status parent == page_grouped) ≡ false = ground arith in rw stop (ap some e)
      | no ne ↦
          let (q, at_c) = block.aligned in
          let go_on : (status parent == page_grouped) ≡ true =
            (==_iff _ _).1 (block.grouped parent (omega arith) hi) in
          let (r, lt, e) = clear_lowest k q (parent - c) (omega arith) (omega arith) in
          let here : q * 2 ^ k + (parent - c) ≡ parent = omega arith in
          let next : bit_and parent (parent - 1) ≡ c + r = rw here at e ∙ omega arith in
          rw (go_on, next)
            (find_parent-head fuel (c + r) c k block begins (omega arith) (omega arith)
              (omega arith))
    ]

-- The answer for an address in memory is whether the block in which it lies is occupied.
pub is_allocated-head :
    {p : Pages} {order : ℕ → ℕ} {lists : ℕ → List ℕ} (addr head : ℕ)
    → IsHeap p [] order lists
    → addr < mem_size
    → Covers p.status order (addr / page_size) head
    → is_allocated addr p ≡ some (p.status head == page_occupied)
unfolding is_allocated to_block_idx
is_allocated-head {p} {order} addr head heap bound cov =
    let in_memory : ltb mem_size addr ≡ false = ground arith in
    let idx : addr % 2 ^ 32 / page_size ≡ addr / page_size = omega arith in
    let block = heap.partition.block head (omega (arith, cov.above)) cov.begins in
    let found =
      find_parent-head (addr / page_size + 1) (addr / page_size) head (order head) block cov.begins
        cov.above cov.below (omega arith) in
    rw (in_memory, idx, found)
