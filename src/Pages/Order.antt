-- ===== src/Pages/Order.antt =====
-- `calculate_order`: the least order whose blocks are large enough.
use native.Mathlib.Nat.{pow-suc, pow-le-pow_right}
use native.Mathlib.Decide.{ℕ_discrete, dec_lt}
use oscs25_labs.Base.{
  ℕ, zero, suc, ◌+◌, ◌-◌, ◌*◌, ◌/◌, ◌%◌, ◌^◌, ◌≤◌, ◌<◌, ◌≡◌, ◌≢◌, ◌∙◌, ◌⊎◌, inl, inr, refl, true,
  false, arith, ◌==◌, ==_iff,
}
use oscs25_labs.Pages.{page_size, order_loop, calculate_order}

-- The loop counts the digits of `size`.
record Digits (size d : ℕ) : Type 0 where
  below : size < 2 ^ d
  least : (d ≡ 0) ⊎ (2 ^ d ≤ 2 * size)

Digits-double : (size d : ℕ) → size ≢ 0 → Digits (size / 2) d → Digits size (suc d)
Digits-double size d ne g = record {
  below = omega (arith, g.below, pow-suc 2 d);
  least = inr (doubled g.least);
}
  where
    doubled : (d ≡ 0) ⊎ (2 ^ d ≤ 2 * (size / 2)) → 2 ^ suc d ≤ 2 * size
    doubled (inl z) = rw z (omega arith)
    doubled (inr le) = omega (arith, pow-suc 2 d)

order_loop-Digits :
    (n size order : ℕ)
    → size < 2 ^ n
    → (d : ℕ) × (order_loop n size order ≡ order + d) × Digits size d
unfolding order_loop
order_loop-Digits zero size order h = (0, omega arith, record { below = h; least = inl refl })
order_loop-Digits (suc n) size order h = elim (ℕ_discrete size 0) [
  | yes z ↦
      let done : (size == 0) ≡ true = (==_iff size 0).1 z in
      (0, rw done (omega arith), record { below = omega arith; least = inl refl })
  | no ne ↦
      let more : (size == 0) ≡ false = ground arith in
      let (d, e, g) = order_loop-Digits n (size / 2) (order + 1) (omega (arith, pow-suc 2 n)) in
      (suc d, rw more (omega (arith, e)), Digits-double size d ne g)
]

too_large : (m d k : ℕ) → m < 2 ^ k → k < d → (d ≡ 0) ⊎ (2 ^ d ≤ 2 * m) → ⊥
too_large m d k fits lt (inl z) = omega arith
too_large m d k fits lt (inr le) =
    omega (arith, pow-suc 2 k, pow-le-pow_right {n = 2} (omega arith) {i = suc k} {j = d} lt)

-- An order whose blocks are large enough is at least that of the digits.
le_of_fits : (m d k : ℕ) → Digits m d → m < 2 ^ k → d ≤ k
le_of_fits m d k g fits = elim (dec_lt k d) [
  | yes lt ↦ absurd (too_large m d k fits lt g.least)
  | no ge ↦ omega arith
]

digits : (m : ℕ) → m < 2 ^ 33 → Digits m (order_loop 33 m 0)
digits m h =
    let (d, e, g) = order_loop-Digits 33 m 0 h in
    let e' : order_loop 33 m 0 ≡ d = e ∙ omega arith in rw e' g

Digits-pages :
    (size m d : ℕ)
    → 0 < size
    → m ≡ (size + 4095) / 4096 - 1
    → Digits m d
    → (size ≤ 2 ^ d * page_size) × ((k : ℕ) → size ≤ 2 ^ k * page_size → d ≤ k)
Digits-pages size m d pos e g = (omega (arith, g.below), λ k fits. le_of_fits m d k g (omega arith))

-- For a request whose rounding up to pages does not wrap, the order is the least one whose blocks
-- hold the request.
pub calculate_order-least :
    (size : ℕ)
    → 0 < size
    → size + 4095 < 2 ^ 32
    → (size ≤ 2 ^ calculate_order size * page_size)
      × ((k : ℕ) → size ≤ 2 ^ k * page_size → calculate_order size ≤ k)
unfolding calculate_order
calculate_order-least size pos small =
    Digits-pages size (((size + 4095) % 2 ^ 32 / page_size + 2 ^ 32 - 1) % 2 ^ 32) _ pos
      (omega arith)
      (digits (((size + 4095) % 2 ^ 32 / page_size + 2 ^ 32 - 1) % 2 ^ 32) (omega arith))
