-- ===== src/Words/Align.antt =====
-- `align` rounds up to a multiple of a power of two.
use oscs25_labs.Base.{
  ℕ, zero, suc, ◌+◌, ◌-◌, ◌*◌, ◌%◌, ◌^◌, ◌≤◌, ◌<◌, ◌≡◌, ap, ◌∙◌, refl, some, arith,
}
use Prim.Native.Nat.{bit_and}
use native.Mathlib.Nat.{one-le-pow, pow-suc}
use oscs25_labs.Base.Bits.{mul-pow-suc}
use oscs25_labs.Base.LowBit.{high_mask, bit_and_pow}
use oscs25_labs.Words.{align}

pow_add : (k d : ℕ) → 2 ^ d * 2 ^ k ≡ 2 ^ (k + d)
pow_add zero d = let e : 0 + d ≡ d = omega arith in rw e (omega arith)
pow_add (suc k) d =
    let e : suc k + d ≡ suc (k + d) = omega arith in
    rw e (omega (arith, mul-pow-suc (2 ^ d) k, pow-suc 2 (k + d), pow_add k d))

pred_mul : (a b : ℕ) → (a - 1) * b ≡ a * b - b
pred_mul zero b = omega arith
pred_mul (suc a) b = let e : suc a - 1 ≡ a = omega arith in rw e (omega arith)

align_masked :
    (addr k d : ℕ)
    → k + d ≡ 32
    → addr + 2 ^ k ≤ 2 ^ 32
    → align addr (2 ^ k) ≡ some (bit_and (addr + 2 ^ k - 1) ((2 ^ d - 1) * 2 ^ k))
unfolding align
align_masked addr k d digits fits =
    let pos = one-le-pow k 2 (omega arith) in
    let whole : 2 ^ d * 2 ^ k ≡ 2 ^ 32 = pow_add k d ∙ ap (λ (n : ℕ). 2 ^ n) digits in
    let sum : (addr + 2 ^ k + 2 ^ 64 - 1) % 2 ^ 64 ≡ addr + 2 ^ k - 1 = omega arith in
    let ones : (2 ^ k + 2 ^ 32 - 1) % 2 ^ 32 ≡ 2 ^ k - 1 = omega arith in
    let mask : 2 ^ 32 - 1 - (2 ^ k - 1) ≡ (2 ^ d - 1) * 2 ^ k =
      omega (arith, pred_mul (2 ^ d) (2 ^ k)) in
    rw (ones, bit_and_pow k, sum, mask) refl

-- For a base that is a power of two, and an address that stays below `2 ^ 32` when it is rounded up,
-- the mask of `align` gives the least multiple of the base that is not below the address.
pub align-least :
    (addr k : ℕ)
    → k < 32
    → addr + 2 ^ k ≤ 2 ^ 32
    → (q : ℕ) × (align addr (2 ^ k) ≡ some (q * 2 ^ k))
      × (addr ≤ q * 2 ^ k)
      × (q * 2 ^ k < addr + 2 ^ k)
align-least addr k low fits =
    let d = 32 - k in
    let digits : k + d ≡ 32 = omega arith in
    let pos = one-le-pow k 2 (omega arith) in
    let whole : 2 ^ d * 2 ^ k ≡ 2 ^ 32 = pow_add k d ∙ ap (λ (n : ℕ). 2 ^ n) digits in
    let (q, e, lo, hi) = high_mask k d (addr + 2 ^ k - 1) (omega arith) in
    (q, align_masked addr k d digits fits ∙ ap some e, omega arith, omega arith)
