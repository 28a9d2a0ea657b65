-- ===== src/Pages/Merge.antt =====
-- One round of `page_free`: the block in hand and its free buddy become one block.
use native.Mathlib.Nat.{pow-suc, one-le-pow}
use native.Mathlib.Decide.{dec_lt, ℕ_discrete}
use oscs25_labs.Base.{
  ℕ, suc, ◌+◌, ◌^◌, ◌≤◌, ◌<◌, ◌≡◌, ◌≢◌, ◌∙◌, ap, refl, true, false, List, [], ◌∷◌, arith, update,
  update-ne, update_self, ltb, mem, mem-head, remove, not-mem-cons, cons-not-mem,
}
use oscs25_labs.Base.Bits.{Aligned, Aligned-le, Aligned-gap}
use oscs25_labs.Pages.{
  Pages, page_grouped, block_max_order, total_page, set_status, is_negative, free_list_remove,
  merge_page_block,
}
use oscs25_labs.Pages.Shape.{IsPartition, blocks_apart}
use oscs25_labs.Pages.Join.{join-IsPartition}
use oscs25_labs.Pages.FreeLists.{IsFree, set_status-IsFree, drop-IsFree, rehand-IsFree}
use oscs25_labs.Pages.FreeLists.Remove.{
  remove-IsFree, status-free_list_remove, idx-free_list_remove,
}
use oscs25_labs.Pages.Invariant.{IsHeap}

-- The block `u` in hand and the free block `b` are the halves, in either order, of a block at `h`.
pub record AreBuddies (h l u b : ℕ) : Type 0 where
  pub aligned : Aligned (suc l) h
  pub halves : (j : ℕ) → mem j (b ∷ u ∷ []) ≡ mem j ((h + 2 ^ l) ∷ h ∷ [])

module _ {p : Pages} {order : ℕ → ℕ} {lists : ℕ → List ℕ} (h l u b : ℕ) (pair : AreBuddies h l u b)
    (heap : IsHeap p (u ∷ []) order lists) (low : suc l ≤ block_max_order)
    (bound : h + 2 ^ l < total_page) (begins : p.status h ≢ page_grouped)
    (begins_up : p.status (h + 2 ^ l) ≢ page_grouped) (ord : order h ≡ l)
    (ord_up : order (h + 2 ^ l) ≡ l) (listed : mem b (lists l) ≡ true) where
  abbrev up : ℕ
  up = h + 2 ^ l

  abbrev merged : Pages
  merged = set_status up page_grouped (free_list_remove b l p)

  merged-IsFree : IsFree merged (h ∷ []) (update lists l (remove b (lists l)))
  merged-IsFree =
      drop-IsFree up
        (rw (update_self (free_list_remove b l p).status up page_grouped) (omega arith))
        (set_status-IsFree up page_grouped (mem-head up (h ∷ [])) (
          rehand-IsFree (b ∷ u ∷ []) (up ∷ h ∷ []) pair.halves
            (remove-IsFree b l (omega arith) heap.free listed)))

  merged_orders :
      (i : ℕ)
      → i < total_page
      → update p.status up page_grouped i ≤ block_max_order
      → mem i (h ∷ []) ≡ false
      → update order h (suc l) i ≡ update p.status up page_grouped i
  merged_orders i b' s out = elim (ℕ_discrete i up) [
    | yes e ↦ absurd (omega (arith, rw (e, update_self p.status up page_grouped) at s))
    | no not_up ↦
        let (not_h, _) = not-mem-cons i h [] out in
        let kept = update-ne p.status up page_grouped i not_up in
        let not_u =
          (not-mem-cons i b (u ∷ []) (pair.halves i ∙ cons-not-mem i up (h ∷ []) not_up out)).1 in
        rw (update-ne order h (suc l) i not_h, kept) (heap.orders i b' (rw kept at s) not_u)
  ]

  pub merged-IsHeap :
      IsHeap merged (h ∷ []) (update order h (suc l)) (update lists l (remove b (lists l)))
  merged-IsHeap = record {
    partition = rw (status-free_list_remove b l p) (
        join-IsPartition h l heap.partition (omega arith) low pair.aligned begins begins_up bound
          ord ord_up);
    orders = rw (status-free_list_remove b l p) merged_orders;
    numbered = rw (idx-free_list_remove b l p) heap.numbered;
    free = merged-IsFree;
  }

-- What `merge_page_block` returns, with the block in hand below its buddy or above it.
pub merge_page_block_above :
    (p : Pages) (h l : ℕ)
    → p.status (h + 2 ^ l) ≡ l
    → l ≤ block_max_order
    → merge_page_block h (h + 2 ^ l) l p
      ≡ (h, set_status (h + 2 ^ l) page_grouped (free_list_remove (h + 2 ^ l) l p))
unfolding merge_page_block
merge_page_block_above p h l st low =
    let pos = one-le-pow l 2 in
    let e : is_negative (p.status (h + 2 ^ l)) ≡ false = rw st (ground arith) in
    let e' : ltb (h + 2 ^ l) h ≡ false = ground arith in rw (e, e')

pub merge_page_block_below :
    (p : Pages) (h l : ℕ)
    → p.status h ≡ l
    → l ≤ block_max_order
    → merge_page_block (h + 2 ^ l) h l p
      ≡ (h, set_status (h + 2 ^ l) page_grouped (free_list_remove h l p))
unfolding merge_page_block
merge_page_block_below p h l st low =
    let pos = one-le-pow l 2 in
    let e : is_negative (p.status h) ≡ false = rw st (ground arith) in
    let e' : ltb h (h + 2 ^ l) ≡ true = ground arith in rw (e, e')

pub merge_page_block_grouped :
    (p : Pages) (h l : ℕ)
    → p.status (h + 2 ^ l) ≡ page_grouped
    → merge_page_block h (h + 2 ^ l) l p ≡ (h, set_status (h + 2 ^ l) page_grouped p)
unfolding merge_page_block
merge_page_block_grouped p h l st =
    let pos = one-le-pow l 2 in
    let e : is_negative (p.status (h + 2 ^ l)) ≡ true = rw st (ground arith) in
    let e' : ltb (h + 2 ^ l) h ≡ false = ground arith in rw (e, e')

-- Below the upper half of an aligned block begins another block: the lower half is not grouped.
pub lower_begins :
    {status order : ℕ → ℕ} (w l : ℕ)
    → IsPartition status order
    → Aligned (suc l) w
    → w + 2 ^ l < total_page
    → status (w + 2 ^ l) ≢ page_grouped
    → status w ≢ page_grouped
lower_begins {status} {order} w l part al bound begins e =
    let (c, cov) = part.cover w (omega arith) in
    let ne : c ≢ w = λ same. cov.begins (ap status same ∙ e) in
    let lt : c < w = omega (arith, cov.above) in
    let (q, at_c) = (part.block c (omega arith) cov.begins).aligned in
    let apart = blocks_apart c (w + 2 ^ l) part (omega arith) cov.begins begins (omega arith) in
    let m = order c in
    elim (dec_lt l m) [
      | yes small ↦
          let al' = Aligned-le m (suc l) (c + 2 ^ m) small (q + 1, omega (arith, at_c)) in
          omega (
            arith,
            Aligned-gap (suc l) w (c + 2 ^ m) al al' cov.below,
            pow-suc 2 l,
            apart,
            one-le-pow l 2,
          )
      | no large ↦ omega (
        arith,
        Aligned-gap m c w (q, at_c) (Aligned-le (suc l) m w (omega arith) al) lt,
        cov.below,
      )
    ]

-- Above a block of order `l` begins another block.
pub upper_begins :
    {status order : ℕ → ℕ} (u l : ℕ)
    → IsPartition status order
    → status u ≢ page_grouped
    → order u ≡ l
    → u + 2 ^ l < total_page
    → status (u + 2 ^ l) ≢ page_grouped
upper_begins {status} {order} u l part begins ord bound e =
    let up = u + 2 ^ l in
    let (c, cov) = part.cover up bound in
    let not_up : c ≢ up = λ same. cov.begins (ap status same ∙ e) in
    let pow-ord : 2 ^ order u ≡ 2 ^ l = ap (λ (k : ℕ). 2 ^ k) ord in
    elim (dec_lt c u) [
      | yes lt ↦ omega (arith, blocks_apart c u part (omega arith) cov.begins begins lt, cov.below)
      | no ge ↦ elim (ℕ_discrete c u) [
        | yes same ↦ omega (arith, cov.below, ap (λ (k : ℕ). 2 ^ order k) same, pow-ord)
        | no other ↦ omega (
          arith,
          blocks_apart u c part (omega arith) begins cov.begins (omega arith),
          cov.above,
          pow-ord,
        )
      ]
    ]

-- The pages are a whole number of blocks of each order.
pub pair_bound :
    (h l : ℕ)
    → suc l ≤ block_max_order
    → Aligned (suc l) h
    → h < total_page
    → h + 2 ^ l < total_page
pair_bound h l low al bound = omega (
  arith,
  Aligned-gap (suc l) h total_page al
      (Aligned-le block_max_order (suc l) total_page low (960, refl)) bound,
  pow-suc 2 l,
  one-le-pow l 2,
)
