-- ===== src/Pages/Rounds.antt =====
-- A round of `memory_reserve`: a block inside a free one is cut out and reserved.
use mathlib.Core.Path.{subst}
use native.Mathlib.Nat.{pow-suc, one-le-pow}
use native.Mathlib.Decide.{dec_lt}
use oscs25_labs.Base.{
  ℕ, zero, suc, ◌+◌, ◌^◌, ◌≤◌, ◌<◌, ◌≡◌, ◌≢◌, ◌∙◌, ◌⊎◌, inl, inr, ap, sym, refl, false, List, arith,
  update_self, ltb,
}
use oscs25_labs.Base.Bits.{Aligned, Aligned-gap}
use oscs25_labs.Pages.{Pages, page_reserved, block_max_order, set_status, free_list_insert}
use oscs25_labs.Pages.Halve.{Holds}
use oscs25_labs.Pages.Invariant.{IsUsed}
use oscs25_labs.Pages.Reserve.{reserve_split}
use oscs25_labs.Pages.Reserved.{
  Kept, Frame, RestFree, SplitTo, freed_status, not_up, lower-Holds, upper-Holds, round_lower,
  round_upper,
}
use oscs25_labs.Pages.Shape.{Covers, update₂, update₂_other, update₂_first, update₂_second}
use oscs25_labs.Pages.FreeLists.Insert.{status-free_list_insert}

-- The page `i` is not in the block of order `c` at `a`.
abbrev Outside : (a c i : ℕ) → Type 0
Outside a c i = (i < a) ⊎ (a + 2 ^ c ≤ i)

freed_half : (y l : ℕ) (q : Pages) → (free_list_insert y l (set_status y l q)).status y ≡ l
freed_half y l q =
    ap (λ (f : ℕ → ℕ). f y) (status-free_list_insert y l (set_status y l q))
    ∙ update_self q.status y l

pub held_block :
    {q : Pages} {order : ℕ → ℕ} {lists : ℕ → List ℕ} (a c : ℕ)
    → Holds q a c order lists
    → Aligned c a × (c ≤ block_max_order)
held_block {q} a c holds =
    let st = update_self q.status a page_reserved in
    let b = holds.heap.partition.block a holds.bound (λ e. omega (arith, e, st)) in
    (rw holds.level at b.aligned, rw holds.level at b.low)

-- A round that keeps the half `x` of the block at `a` and frees the half `y`.
module _ {q : Pages} {order : ℕ → ℕ} {lists : ℕ → List ℕ} (a l x y m s : ℕ)
    (holds : Holds q a (suc l) order lists) (away : (i : ℕ) → Outside a (suc l) i → Outside x l i)
    (heads : (i : ℕ) → i ≢ a → i ≢ a + 2 ^ l → (i ≢ x) × (i ≢ y))
    (other : (i : ℕ) → a ≤ i → i < a + 2 ^ suc l → Outside x l i → (y ≤ i) × (i < y + 2 ^ l))
    (apart : Outside x l y) (place : y ≢ s) (level : update₂ order a l (a + 2 ^ l) l y ≡ l) where
  abbrev halved : Pages
  halved = free_list_insert y l (set_status y l q)

  abbrev ord : ℕ → ℕ
  ord = update₂ order a l (a + 2 ^ l) l

  Kept-through :
      (q' : Pages) (order' : ℕ → ℕ) → Kept halved ord x q' order' → Kept q order a q' order'
  Kept-through q' order' kept i ne used =
      let not_upper = not_up a l holds i ne used in
      let (not_x, not_y) = heads i ne not_upper in
      let st = freed_status a l holds y i not_y in
      let used' : IsUsed halved.status i = record {
        bound = used.bound;
        high = rw st used.high;
        begins = λ e. used.begins (sym st ∙ e);
      } in
      let (same, same') = kept i not_x used' in
      (same ∙ st, same' ∙ update₂_other order a l (a + 2 ^ l) l i ne not_upper)

  Frame-through :
      (q' : Pages) (order' : ℕ → ℕ)
      → Frame halved ord x l q' order'
      → Frame q order a (suc l) q' order'
  Frame-through q' order' frame i out =
      let not_a : i ≢ a = λ e. omega (arith, e, out, one-le-pow (suc l) 2) in
      let not_upper : i ≢ a + 2 ^ l = λ e. omega (arith, e, out, one-le-pow l 2, pow-suc 2 l) in
      let (same, same') = frame i (away i out) in
      (
        same ∙ freed_status a l holds y i (heads i not_a not_upper).1,
        same' ∙ update₂_other order a l (a + 2 ^ l) l i not_a not_upper,
      )

  -- The half `y` stays free.
  half_free :
      (q' : Pages) (order' : ℕ → ℕ) (i : ℕ)
      → Frame halved ord x l q' order'
      → y ≤ i
      → i < y + 2 ^ l
      → (head : ℕ) × Covers q'.status order' i head
        × (head ≢ s)
        × (q'.status head ≤ block_max_order)
  half_free q' order' i frame lo hi =
      let (same, same') = frame y apart in
      let st : q'.status y ≡ l = same ∙ freed_half y l q in
      let small = (held_block a (suc l) holds).1 in
      (
        y,
        record {
          begins = λ e. omega (arith, e, st, small);
          above = lo;
          below = rw (same' ∙ level) hi;
        },
        place,
        omega (arith, st, small),
      )

  rest_through :
      (q' : Pages) (order' : ℕ → ℕ)
      → Frame halved ord x l q' order'
      → RestFree q' order' x l m s
      → RestFree q' order' a (suc l) m s
  rest_through q' order' frame rest i lo hi out = elim (dec_lt i x) [
    | yes before ↦
        let (lo', hi') = other i lo hi (inl before) in half_free q' order' i frame lo' hi'
    | no above ↦ elim (dec_lt i (x + 2 ^ l)) [
      | yes below ↦ rest i (omega arith) below out
      | no behind ↦
          let (lo', hi') = other i lo hi (inr (omega arith)) in half_free q' order' i frame lo' hi'
    ]
  ]

  through : (q' : Pages) → SplitTo halved ord x l m s q' → SplitTo q order a (suc l) m s q'
  through q' (order', lists', held, kept, frame, rest) = (
    order',
    lists',
    held,
    Kept-through q' order' kept,
    Frame-through q' order' frame,
    rest_through q' order' frame rest,
  )

-- A block that holds a place of its own order begins there.
pub same_place : (m a s : ℕ) → Aligned m a → Aligned m s → a ≤ s → s < a + 2 ^ m → a ≡ s
same_place m a s al al' lo hi = elim (dec_lt a s) [
  | yes lt ↦ absurd (omega (arith, Aligned-gap m a s al al' lt, hi))
  | no ge ↦ omega arith
]

nothing_left :
    (a l m s i : ℕ)
    → suc l ≡ m
    → a ≡ s
    → a ≤ i
    → i < a + 2 ^ suc l
    → ((i < s) ⊎ (s + 2 ^ m ≤ i))
    → ⊥
nothing_left a l m s i e at_s lo hi out =
    let same : 2 ^ suc l ≡ 2 ^ m = ap (λ (k : ℕ). 2 ^ k) e in omega (arith, same, at_s, out, hi)

pub reserve_split-SplitTo :
    (c a m s : ℕ) {q : Pages} {order : ℕ → ℕ} {lists : ℕ → List ℕ}
    → Holds q a c order lists
    → Aligned m s
    → m ≤ c
    → a ≤ s
    → s < a + 2 ^ c
    → SplitTo q order a c m s (reserve_split m s c a q)
unfolding reserve_split
reserve_split-SplitTo zero a m s {q} {order} {lists} holds al le lo hi =
    let at_s : a ≡ s = omega (arith, hi) in
    let none_left : 0 ≡ m = omega (arith, le) in
    (
      order,
      lists,
      subst (λ (b : ℕ). Holds q b m order lists) at_s (rw⁻¹ none_left holds),
      λ i ne used. (refl, refl),
      λ i out. (refl, refl),
      λ i lo' hi' out. absurd (omega (arith, out, ap (λ (k : ℕ). 2 ^ k) none_left, at_s, hi')),
    )
reserve_split-SplitTo (suc l) a m s {q} {order} {lists} holds al le lo hi =
    let up = a + 2 ^ l in
    let double = pow-suc 2 l in
    let pos = one-le-pow l 2 in
    elim (dec_lt m (suc l)) [
      | yes deep ↦ elim (dec_lt s (a + 2 ^ l)) [
        | yes below ↦
            let next =
              reserve_split-SplitTo l a m s (lower-Holds a l holds) al (omega arith) lo below in
            rw (round_lower a l holds m s deep below) (
              through a l a up m s holds (λ i out. omega (arith, out, double)) (λ i na nu. (na, nu))
                (λ i lo' hi' out. (omega (arith, out), omega (arith, double))) (inr (omega arith))
                (λ e. omega (arith, e, below)) (update₂_second order a l up l) _ next)
        | no above ↦
            let next =
              reserve_split-SplitTo l up m s (upper-Holds a l holds) al (omega arith) (omega arith)
                (omega (arith, hi, double)) in
            rw (round_upper a l holds m s deep (omega arith)) (
              through a l up a m s holds (λ i out. omega (arith, out, double)) (λ i na nu. (nu, na))
                (λ i lo' hi' out. (lo', omega (arith, out, double))) (inl (omega (arith, pos)))
                (λ e. omega (arith, e, above, pos))
                (update₂_first order a l up l (omega (arith, pos))) _ next)
      ]
      | no whole ↦
          let m-eq : suc l ≡ m = omega (arith, whole, le) in
          let stop : ltb m (suc l) ≡ false = ground arith in
          let al' : Aligned (suc l) s = subst (λ (k : ℕ). Aligned k s) (sym m-eq) al in
          let at_s = same_place (suc l) a s (held_block a (suc l) holds).0 al' lo hi in
          let held : Holds q s m order lists =
            subst (λ (b : ℕ). Holds q b m order lists) at_s
              (subst (λ (k : ℕ). Holds q a k order lists) m-eq holds) in
          rw stop (
            order,
            lists,
            held,
            λ i ne used. (refl, refl),
            λ i out. (refl, refl),
            λ i lo' hi' out. absurd (nothing_left a l m s i m-eq at_s lo' hi' out),
          )
    ]
