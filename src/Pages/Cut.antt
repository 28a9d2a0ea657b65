-- ===== src/Pages/Cut.antt =====
-- `memory_reserve` round by round: the block of a round is cut out of the free block in which it
-- lies.
use mathlib.Core.Path.{subst}
use native.Mathlib.Nat.{div-add-mod'}
use native.Mathlib.Decide.{ℕ_discrete, dec_lt}
use oscs25_labs.Base.{
  ℕ, zero, suc, ◌+◌, ◌-◌, ◌/◌, ◌%◌, ◌⊎◌, ◌^◌, ◌≤◌, ◌<◌, ◌≡◌, ◌≢◌, ◌∙◌, sym, ap, refl, true, false,
  some, List, [], arith, update, update-ne, update_self, mem, ltb, remove,
}
use oscs25_labs.Base.Bits.{Aligned}
use oscs25_labs.Pages.{
  Pages, page_reserved, block_max_order, total_page, set_status, free_list_remove,
}
use oscs25_labs.Pages.Clean.{IsClean, remove-IsClean, free_list_remove_absent}
use oscs25_labs.Pages.FreeLists.Remove.{remove-IsFree}
use oscs25_labs.Pages.Halve.{Holds}
use oscs25_labs.Pages.Invariant.{IsHeap, IsUsed, settle-IsHeap}
use oscs25_labs.Pages.Owner.{find_parent-head}
use oscs25_labs.Pages.Reserve.{
  reserve_split, reserve_round, segment_block_seq, segment_block_seq-greatest,
}
use oscs25_labs.Pages.Reserved.{unlisted}
use oscs25_labs.Pages.Rounds.{reserve_split-SplitTo, same_place, held_block}
use oscs25_labs.Pages.Shape.{Covers}

-- In the free block at `h`, the block of order `m` at `s` is reserved, and all other pages of it lie
-- in free blocks; the heap is well-formed, the blocks that were used are used as before, and nothing
-- outside the free block is touched.
pub record Reserved (p : Pages) (order : ℕ → ℕ) (h m s : ℕ) (p' : Pages) : Type 0 where
  pub order' : ℕ → ℕ
  pub lists' : ℕ → List ℕ
  pub heap : IsHeap p' [] order' lists'
  pub clean : IsClean p' lists'
  pub reserved : p'.status s ≡ page_reserved
  pub level : order' s ≡ m
  pub rest :
      (i : ℕ)
      → h ≤ i
      → i < h + 2 ^ p.status h
      → ((i < s) ⊎ (s + 2 ^ m ≤ i))
      → (head : ℕ) × Covers p'.status order' i head × (p'.status head ≤ block_max_order)
  pub frame :
      (i : ℕ)
      → ((i < h) ⊎ (h + 2 ^ p.status h ≤ i))
      → (p'.status i ≡ p.status i) × (order' i ≡ order i)
  pub kept : (i : ℕ) → IsUsed p.status i → (p'.status i ≡ p.status i) × (order' i ≡ order i)

-- The order chosen for a range: the greatest at which an aligned block begins at its first page and
-- fits.
pub record Chosen (start_idx end_idx m : ℕ) : Type 0 where
  pub found : segment_block_seq start_idx (end_idx - start_idx + 1) ≡ some m
  pub low : m ≤ block_max_order
  pub aligned : start_idx % 2 ^ m ≡ 0
  pub fits : start_idx + 2 ^ m ≤ end_idx + 1
  pub greatest :
      (k : ℕ)
      → k ≤ block_max_order
      → start_idx % 2 ^ k ≡ 0
      → start_idx + 2 ^ k ≤ end_idx + 1
      → k ≤ m

-- The end of the round: the block at `s` is marked and is on no list.
finish : (m s : ℕ) → Pages → Pages
finish m s p = free_list_remove s m (set_status s page_reserved p)

module _ {q : Pages} {order : ℕ → ℕ} {lists : ℕ → List ℕ} (m s : ℕ)
    (holds : Holds q s m order lists) where
  finish-eq : finish m s q ≡ set_status s page_reserved q
  unfolding finish
  finish-eq =
      let small = (held_block s m holds).1 in
      free_list_remove_absent (set_status s page_reserved q) s m (lists m)
        (holds.heap.free.linked.head m small) (holds.clean s holds.bound (unlisted s m holds))
        (unlisted s m holds m small)

-- The first round of a split takes the block off its list; that it is off already is the same.
first_round :
    (c m s h : ℕ) (p : Pages)
    → m < c
    → free_list_remove h c (free_list_remove h c p) ≡ free_list_remove h c p
    → reserve_split m s c h p ≡ reserve_split m s c h (free_list_remove h c p)
unfolding reserve_split
first_round zero m s h p deep absent = absurd (omega arith)
first_round (suc l) m s h p deep absent =
    let on : ltb m (suc l) ≡ true = ground arith in rw (on, absent) refl

no_round : (c m s h : ℕ) (p : Pages) → c ≤ m → reserve_split m s c h p ≡ p
unfolding reserve_split
no_round zero m s h p le = refl
no_round (suc l) m s h p le = let stop : ltb m (suc l) ≡ false = ground arith in rw stop refl

finish-off :
    (c h : ℕ) (p : Pages)
    → free_list_remove h c (free_list_remove h c p) ≡ free_list_remove h c p
    → finish c h p ≡ finish c h (free_list_remove h c p)
unfolding finish free_list_remove
finish-off c h p absent = ap (set_status h page_reserved) (sym absent)

module _ {p : Pages} {order : ℕ → ℕ} {lists : ℕ → List ℕ} (h : ℕ) (heap : IsHeap p [] order lists)
    (clean : IsClean p lists) (bound : h < total_page) (small : p.status h ≤ block_max_order) where
  abbrev k : ℕ
  k = p.status h

  abbrev off : Pages
  off = free_list_remove h k p

  listed : mem h (lists k) ≡ true
  listed = heap.free.complete k h small bound refl refl

  off-Holds : Holds off h k order (update lists k (remove h (lists k)))
  unfolding free_list_remove
  off-Holds = record {
    heap =
        settle-IsHeap h page_reserved (omega arith) (omega arith) (λ e. omega (arith, e, small))
          (record {
            partition = heap.partition;
            orders = λ i b st out. heap.orders i b st refl;
            numbered = heap.numbered;
            free = remove-IsFree h k small heap.free listed;
          });
    clean = remove-IsClean h k small heap.free clean listed;
    level = heap.orders h bound small refl;
    bound = bound;
  }

  absent : free_list_remove h k off ≡ off
  absent =
      free_list_remove_absent off h k (update lists k (remove h (lists k)) k)
        (off-Holds.heap.free.linked.head k small) (off-Holds.clean h bound (unlisted h k off-Holds))
        (unlisted h k off-Holds k small)

  -- It is taken off its list in the first round of the split, or at the end.
  first_off :
      (m s : ℕ)
      → m ≤ k
      → Aligned m s
      → h ≤ s
      → s < h + 2 ^ k
      → finish m s (reserve_split m s k h p) ≡ finish m s (reserve_split m s k h off)
  first_off m s le al lo hi = elim (dec_lt m k) [
    | yes deep ↦ ap (finish m s) (first_round k m s h p deep absent)
    | no whole ↦
        let m-eq : k ≡ m = omega (arith, whole, le) in
        let al' : Aligned k s = subst (λ (c : ℕ). Aligned c s) (sym m-eq) al in
        let at_s : h ≡ s = same_place k h s (held_block h k off-Holds).0 al' lo hi in
        let here : finish k h p ≡ finish k h off = finish-off k h p absent in
        rw (no_round k m s h p (omega (arith, m-eq)), no_round k m s h off (omega (arith, m-eq)))
          (subst (λ (c : ℕ). finish c s p ≡ finish c s off) m-eq
            (subst (λ (b : ℕ). finish k b p ≡ finish k b off) at_s here))
  ]

  not_free : (i : ℕ) → IsUsed p.status i → i ≢ h
  not_free i used e = omega (arith, used.high, ap p.status e, small)

  -- No other block begins in the block at `h`.
  not_inside : (i s : ℕ) → h ≤ s → s < h + 2 ^ k → IsUsed p.status i → i ≢ s
  not_inside i s lo hi used e = elim (ℕ_discrete s h) [
    | yes same ↦ not_free i used (e ∙ same)
    | no ne ↦
        let level : order h ≡ k = heap.orders h bound small refl in
        let block = heap.partition.block h bound (λ g. omega (arith, g, small)) in
        let inside : s < h + 2 ^ order h = rw level hi in
        used.begins (ap p.status e ∙ block.grouped s (omega (arith, ne)) inside)
  ]

  cut-Reserved :
      (m s : ℕ)
      → m ≤ k
      → Aligned m s
      → h ≤ s
      → s < h + 2 ^ k
      → Reserved p order h m s (finish m s (reserve_split m s k h p))
  unfolding free_list_remove
  cut-Reserved m s le al lo hi =
      let (order', lists', held, kept, frame, rest) =
        reserve_split-SplitTo k h m s off-Holds al le lo hi in
      let q = reserve_split m s k h off in
      let e : finish m s (reserve_split m s k h p) ≡ set_status s page_reserved q =
        first_off m s le al lo hi ∙ finish-eq m s held in
      subst (λ (r : Pages). Reserved p order h m s r) (sym e)
        (record {
          order' = order';
          lists' = lists';
          heap = held.heap;
          clean = held.clean;
          reserved = update_self q.status s page_reserved;
          level = held.level;
          rest = λ i lo' hi' out.
              let (head, cov, ne, free) = rest i lo' hi' out in
              let st = update-ne q.status s page_reserved head ne in
              (
                head,
                record {
                  begins = λ e. cov.begins (sym st ∙ e);
                  above = cov.above;
                  below = cov.below;
                },
                rw st free,
              );
          frame = λ i out.
              let other : i ≢ s = λ e. omega (arith, e, out, lo, hi) in
              let (same, same') = frame i out in
              (update-ne q.status s page_reserved i other ∙ same, same');
          kept = λ i used.
              let other = not_inside i s lo hi used in
              let (same, same') = kept i (not_free i used) used in
              (update-ne q.status s page_reserved i other ∙ same, same');
        })

-- A round of memory_reserve, on a well-formed heap where pages on no list have clear links, from a
-- page in a free block that is not smaller than the block chosen: the block chosen is the largest
-- that is aligned and fits in the range, and the round gives the page behind it. It is reserved, all
-- other pages of the free block lie in free blocks, the blocks that were used are used as before,
-- nothing outside the free block is touched, and heap and links are well-formed again.
pub reserve_round-Reserved :
    {p : Pages} {order : ℕ → ℕ} {lists : ℕ → List ℕ} (start_idx end_idx h : ℕ)
    → IsHeap p [] order lists
    → IsClean p lists
    → start_idx ≤ end_idx
    → start_idx < total_page
    → Covers p.status order start_idx h
    → p.status h ≤ block_max_order
    → ((m : ℕ) → segment_block_seq start_idx (end_idx - start_idx + 1) ≡ some m → m ≤ order h)
    → (m : ℕ) × (p' : Pages) × (reserve_round start_idx end_idx p ≡ some (start_idx + 2 ^ m, p'))
      × Chosen start_idx end_idx m
      × Reserved p order h m start_idx p'
unfolding reserve_round finish
reserve_round-Reserved {p} {order} start_idx end_idx h heap clean range bound cov free room =
    let (m, found, low, aligned, fits, greatest) =
      segment_block_seq-greatest start_idx (end_idx - start_idx + 1) (omega arith) in
    let bound_h : h < total_page = omega (arith, cov.above) in
    let level : order h ≡ p.status h = heap.orders h bound_h free refl in
    let parent =
      find_parent-head (suc start_idx) start_idx h (order h)
        (heap.partition.block h bound_h cov.begins) cov.begins cov.above cov.below (omega arith) in
    (
      m,
      finish m start_idx (reserve_split m start_idx (p.status h) h p),
      rw (found, parent) refl,
      record {
        found = found;
        low = low;
        aligned = aligned;
        fits = omega (arith, fits, range);
        greatest = λ k le al room'. greatest k le al (omega (arith, room', range));
      },
      cut-Reserved h heap clean bound_h free m start_idx (rw⁻¹ level (room m found))
          (start_idx / 2 ^ m, omega (arith, div-add-mod' start_idx (2 ^ m), aligned)) cov.above
          (rw⁻¹ level cov.below),
    )
