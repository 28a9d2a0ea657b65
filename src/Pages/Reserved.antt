-- ===== src/Pages/Reserved.antt =====
-- The split of `memory_reserve` down to the block that is wanted.
use Prim.Native.Nat.{bit_xor}
use mathlib.Core.Path.{subst, fun_ext}
use native.Mathlib.Nat.{pow-suc, one-le-pow}
use oscs25_labs.Base.{
  ◌⊎◌, ℕ, suc, ◌+◌, ◌^◌, ◌≤◌, ◌<◌, ◌≡◌, ◌≢◌, ◌∙◌, inl, inr, sym, ap, refl, true, false, List, ◌∷◌,
  arith, update, update-ne, update_self, mem, Bool-cases, ==_iff, ltb, leb,
}
use oscs25_labs.Base.Bits.{buddy_upper}
use oscs25_labs.Pages.{
  Pages, page_grouped, page_reserved, block_max_order, total_page, set_status, free_list_insert,
  free_list_remove,
}
use oscs25_labs.Pages.Clean.{free_list_remove_absent}
use oscs25_labs.Pages.FreeLists.Insert.{status-free_list_insert}
use oscs25_labs.Pages.Halve.{Holds, halves-Holds}
use oscs25_labs.Pages.Invariant.{IsUsed}
use oscs25_labs.Pages.Reserve.{reserve_split}
use oscs25_labs.Pages.Shape.{
  Covers, IsBlock, IsPartition, split-IsPartition, update₂, update₂_first, update₂_second,
  update₂_other,
}

-- The used blocks but for the one at `a` stay as they are.
abbrev pub Kept : Pages → (ℕ → ℕ) → ℕ → Pages → (ℕ → ℕ) → Type 0
Kept q order a q' order' =
    (i : ℕ) → i ≢ a → IsUsed q.status i → (q'.status i ≡ q.status i) × (order' i ≡ order i)

-- No block outside that of order `c` at `a` is touched.
abbrev pub Frame : Pages → (ℕ → ℕ) → (a c : ℕ) → Pages → (ℕ → ℕ) → Type 0
Frame q order a c q' order' =
    (i : ℕ) → ((i < a) ⊎ (a + 2 ^ c ≤ i)) → (q'.status i ≡ q.status i) × (order' i ≡ order i)

-- Each page of the block of order `c` at `a` that is not in that of order `m` at `s` lies in a free
-- block.
abbrev pub RestFree : Pages → (ℕ → ℕ) → (a c m s : ℕ) → Type 0
RestFree q order a c m s =
    (i : ℕ)
    → a ≤ i
    → i < a + 2 ^ c
    → ((i < s) ⊎ (s + 2 ^ m ≤ i))
    → (head : ℕ) × Covers q.status order i head × (head ≢ s) × (q.status head ≤ block_max_order)

-- The block of order `m` at `s` is off the lists, and the rest of the block of order `c` at `a` is
-- free.
abbrev pub SplitTo : Pages → (ℕ → ℕ) → (a c m s : ℕ) → Pages → Type 0
SplitTo q order a c m s q' =
    (order' : ℕ → ℕ) × (lists' : ℕ → List ℕ) × Holds q' s m order' lists'
    × Kept q order a q' order'
    × Frame q order a c q' order'
    × RestFree q' order' a c m s

pub unlisted :
    {q : Pages} {order : ℕ → ℕ} {lists : ℕ → List ℕ} (a c : ℕ)
    → Holds q a c order lists
    → (k : ℕ) → k ≤ block_max_order
    → mem a (lists k) ≡ false
unlisted {q} {lists = lists} a c holds k small = elim (Bool-cases (mem a (lists k))) [
  | inl here ↦
      let st = (holds.heap.free.sound k a small here).1 in
      absurd (omega (arith, st, update_self q.status a page_reserved))
  | inr out ↦ out
]

module _ {q : Pages} {order : ℕ → ℕ} {lists : ℕ → List ℕ} (a l : ℕ)
    (holds : Holds q a (suc l) order lists) where
  pub block : IsBlock (update q.status a page_reserved) a (suc l)
  block = rw holds.level at (
      holds.heap.partition.block a holds.bound
        (λ e. omega (arith, e, update_self q.status a page_reserved)))

  abbrev pub up : ℕ
  up = a + 2 ^ l

  pub apart : a ≢ up
  apart = omega (arith, one-le-pow l 2)

  up_grouped : update q.status a page_reserved up ≡ page_grouped
  up_grouped =
      block.grouped up (omega (arith, one-le-pow l 2)) (omega (arith, pow-suc 2 l, one-le-pow l 2))

  up_bound : up < total_page
  up_bound = omega (arith, block.inside, pow-suc 2 l, one-le-pow l 2)

  a_reserved : update q.status a page_reserved a ≡ page_reserved
  a_reserved = update_self q.status a page_reserved

  begins : update q.status a page_reserved a ≢ page_grouped
  begins e = omega (arith, e, a_reserved)

  low : l ≤ block_max_order
  low = omega (arith, block.low)

  halves :
      (v w : ℕ)
      → v ≢ page_grouped
      → w ≢ page_grouped
      → IsPartition (update₂ (update q.status a page_reserved) a v up w) (update₂ order a l up l)
  halves v w hv hw =
      split-IsPartition a l v w holds.heap.partition holds.bound begins holds.level hv hw

  pub freed_status :
      (y i : ℕ) → i ≢ y → (free_list_insert y l (set_status y l q)).status i ≡ q.status i
  freed_status y i ne =
      ap (λ (f : ℕ → ℕ). f i) (status-free_list_insert y l (set_status y l q))
      ∙ update-ne q.status y l i ne

  pub not_up : (i : ℕ) → i ≢ a → IsUsed q.status i → i ≢ up
  not_up i ne used e = used.begins (
      sym (update-ne q.status a page_reserved i ne)
      ∙ ap (update q.status a page_reserved) e
      ∙ up_grouped)

  lower_status :
      (j : ℕ)
      → update₂ (update q.status a page_reserved) a page_reserved up l j
        ≡ update (update q.status up l) a page_reserved j
  lower_status j = ground (arith, ==_iff j a, ==_iff j up, apart)

  upper_status :
      (j : ℕ)
      → update₂ (update q.status a page_reserved) a l up page_reserved j
        ≡ update (update q.status a l) up page_reserved j
  upper_status j = ground (arith, ==_iff j a, ==_iff j up, apart)

  -- The lower half is kept.
  pub lower-Holds :
      Holds
        (free_list_insert up l (set_status up l q))
        a
        l
        (update₂ order a l up l)
        (update lists l (up ∷ lists l))
  lower-Holds =
      halves-Holds a l a up q low apart (inl refl) up_bound (rw a_reserved (omega arith))
        (rw up_grouped (omega arith)) order (update₂ order a l up l) lists holds.heap holds.clean
        holds.bound
        (subst (λ (st : ℕ → ℕ). IsPartition st (update₂ order a l up l)) (fun_ext lower_status)
          (halves page_reserved l (omega arith) (omega (arith, low))))
        (update₂_first order a l up l apart) (update₂_second order a l up l)
        (λ i na nu. update₂_other order a l up l i na nu)

  -- The upper half is kept.
  pub upper-Holds :
      Holds
        (free_list_insert a l (set_status a l q))
        up
        l
        (update₂ order a l up l)
        (update lists l (a ∷ lists l))
  upper-Holds =
      halves-Holds a l up a q low (λ e. apart (sym e)) (inr refl) holds.bound
        (rw up_grouped (omega arith)) (rw a_reserved (omega arith)) order (update₂ order a l up l)
        lists holds.heap holds.clean up_bound
        (subst (λ (st : ℕ → ℕ). IsPartition st (update₂ order a l up l)) (fun_ext upper_status)
          (halves l page_reserved (omega (arith, low)) (omega arith)))
        (update₂_second order a l up l) (update₂_first order a l up l apart)
        (λ i nu na. update₂_other order a l up l i na nu)

  -- The block is on no list, so that it is not taken off one again.
  absent : free_list_remove a (suc l) q ≡ q
  absent =
      free_list_remove_absent q a (suc l) (lists (suc l))
        (holds.heap.free.linked.head (suc l) block.low)
        (holds.clean a holds.bound (unlisted a (suc l) holds))
        (unlisted a (suc l) holds (suc l) block.low)

  buddy : bit_xor a (2 ^ l) ≡ up
  buddy = buddy_upper l a block.aligned

  pub round_lower :
      (m s : ℕ)
      → m < suc l
      → s < up
      → reserve_split m s (suc l) a q
        ≡ reserve_split m s l a (free_list_insert up l (set_status up l q))
  unfolding reserve_split
  round_lower m s deep below =
      let on : ltb m (suc l) ≡ true = ground arith in
      let swap : leb up s ≡ false = ground arith in rw (on, buddy, swap, absent) refl

  pub round_upper :
      (m s : ℕ)
      → m < suc l
      → up ≤ s
      → reserve_split m s (suc l) a q
        ≡ reserve_split m s l up (free_list_insert a l (set_status a l q))
  unfolding reserve_split
  round_upper m s deep above =
      let on : ltb m (suc l) ≡ true = ground arith in
      let swap : leb up s ≡ true = ground arith in rw (on, buddy, swap, absent) refl
