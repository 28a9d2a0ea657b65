-- ===== src/Pages/Reserve.antt =====
-- `segment_block_seq` and `memory_reserve`: the blocks of a range of pages are cut out of the free
-- blocks and marked reserved.
use Prim.Native.Nat.{bit_xor}
use native.Mathlib.Decide.{ℕ_discrete}
use native.Mathlib.Nat.{le_refl}
use oscs25_labs.Base.{
  ℕ, zero, suc, ◌+◌, ◌-◌, ◌%◌, ◌^◌, ◌≤◌, ◌<◌, Bool, true, ◌&&◌, Option, none, some, ltb, leb, ◌==◌,
  ◌>>=◌, if◌then◌else◌, ◌≡◌, refl, sym, ◌∙◌, arith, Bool-cases, inl, inr, subst, ==_iff,
}
use oscs25_labs.Pages.{
  Pages, page_size, page_reserved, block_max_order, set_status, free_list_insert, free_list_remove,
  find_parent, to_block_idx,
}

abbrev pub block_fits : (start_idx size order : ℕ) → Bool
block_fits start_idx size order = (start_idx % 2 ^ order == 0) && leb (2 ^ order) size

-- From the order `order` down; `none` is a loop that runs below 0, which an empty range makes.
unfoldable pub segment_loop : (start_idx size order : ℕ) → Option ℕ
segment_loop start_idx size zero = if block_fits start_idx size 0 then some 0 else none
segment_loop start_idx size (suc order) =
    let rest = segment_loop start_idx size order in
    if block_fits start_idx size (suc order) then some (suc order) else rest

unfoldable pub segment_block_seq : (start_idx size : ℕ) → Option ℕ
segment_block_seq start_idx size = segment_loop start_idx size block_max_order

-- The block at `parent` of the order `curr_order` is halved until the half in which `start_idx` lies
-- has the order wanted; each other half becomes a free block.
unfoldable pub reserve_split : (sub_block_order start_idx curr_order parent : ℕ) → Pages → Pages
reserve_split sub_block_order start_idx zero parent p = p
reserve_split sub_block_order start_idx (suc order) parent p =
    let buddy = bit_xor parent (2 ^ order) in
    let swap = leb buddy start_idx in
    let parent' = if swap then buddy else parent in
    let buddy' = if swap then parent else buddy in
    let p' = free_list_remove parent (suc order) p in
    let rest =
      reserve_split sub_block_order start_idx order parent'
        (free_list_insert buddy' order (set_status buddy' order p')) in
    if ltb sub_block_order (suc order) then rest else p

-- One round of `memory_reserve`: the index behind the block that is reserved, and the new state.
unfoldable pub reserve_round : (start_idx end_idx : ℕ) → Pages → Option (ℕ × Pages)
reserve_round start_idx end_idx p = do
  sub_block_order ← segment_block_seq start_idx (end_idx - start_idx + 1)
  parent ← find_parent (suc start_idx) p.status start_idx
  let p₁ = reserve_split sub_block_order start_idx (p.status parent) parent p in
      some (
        start_idx + 2 ^ sub_block_order,
        free_list_remove start_idx sub_block_order (set_status start_idx page_reserved p₁),
      )

-- A round goes on by a page at least, so the count of pages is enough for `n`.
unfoldable pub reserve_loop : (n start_idx end_idx : ℕ) → Pages → Option Pages
reserve_loop zero start_idx end_idx p = if leb start_idx end_idx then none else some p
reserve_loop (suc n) start_idx end_idx p =
    let rest = reserve_round start_idx end_idx p >>= λ r. reserve_loop n r.0 end_idx r.1 in
    if leb start_idx end_idx then rest else some p

-- The addresses have 64 bits; the masks `~(PAGE_SIZE - 1)` clear the offset in the page.
unfoldable pub memory_reserve : (start size : ℕ) → Pages → Option Pages
memory_reserve start size p =
    let end_ = (start + size + 2 ^ 64 - 1) % 2 ^ 64 in
    let start_idx = to_block_idx (start - start % page_size) in
    let end_idx = to_block_idx (end_ - end_ % page_size) in
    reserve_loop (suc end_idx - start_idx) start_idx end_idx p

-- What the search gives among the orders up to `bound`.
record Greatest (start_idx size bound : ℕ) (r : Option ℕ) : Type 0 where
  order : ℕ
  found : r ≡ some order
  low : order ≤ bound
  fits : block_fits start_idx size order ≡ true
  greatest : (k : ℕ) → k ≤ bound → block_fits start_idx size k ≡ true → k ≤ order

segment_loop-Greatest :
    (start_idx size bound : ℕ)
    → 0 < size
    → Greatest start_idx size bound (segment_loop start_idx size bound)
unfolding segment_loop
segment_loop-Greatest start_idx size zero pos =
    let one : start_idx % 2 ^ 0 ≡ 0 = omega arith in
    let fits : block_fits start_idx size 0 ≡ true = ground arith in
    rw fits
      record { order = 0; found = refl; low = le_refl 0; fits = fits; greatest = λ k le _. le }
segment_loop-Greatest start_idx size (suc bound) pos =
    elim (Bool-cases (block_fits start_idx size (suc bound))) [
      | inl fits ↦ rw fits record {
        order = suc bound;
        found = refl;
        low = le_refl (suc bound);
        fits = fits;
        greatest = λ k le _. le;
      }
      | inr larger ↦
          let g = segment_loop-Greatest start_idx size bound pos in
          rw larger record {
            order = g.order;
            found = g.found;
            low = omega (arith, g.low);
            fits = g.fits;
            greatest = λ k le fits. elim (ℕ_discrete k (suc bound)) [
              | yes e ↦
                  let top : block_fits start_idx size (suc bound) ≡ true =
                    subst (λ (m : ℕ). block_fits start_idx size m ≡ true) e fits in
                  absurd (cc (sym top ∙ larger))
              | no ne ↦ g.greatest k (omega arith) fits
            ];
          }
    ]

fits_iff :
    (start_idx size order : ℕ)
    → block_fits start_idx size order ≡ true
    → (start_idx % 2 ^ order ≡ 0) × (2 ^ order ≤ size)
fits_iff start_idx size order h = ground arith

-- For a range that is not empty, the order chosen is the greatest of at most `BLOCK_MAX_ORDER` at
-- which an aligned block begins at the first page and fits in the range.
pub segment_block_seq-greatest :
    (start_idx size : ℕ)
    → 0 < size
    → (order : ℕ) × (segment_block_seq start_idx size ≡ some order)
      × (order ≤ block_max_order)
      × (start_idx % 2 ^ order ≡ 0)
      × (2 ^ order ≤ size)
      × ((k : ℕ) → k ≤ block_max_order → start_idx % 2 ^ k ≡ 0 → 2 ^ k ≤ size → k ≤ order)
unfolding segment_block_seq
segment_block_seq-greatest start_idx size pos =
    let g = segment_loop-Greatest start_idx size block_max_order pos in
    (
      g.order,
      g.found,
      g.low,
      (fits_iff start_idx size g.order g.fits).0,
      (fits_iff start_idx size g.order g.fits).1,
      λ k le al room. g.greatest k le (ground (arith, ==_iff (start_idx % 2 ^ k) 0)),
    )
