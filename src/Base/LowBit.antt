-- ===== src/Base/LowBit.antt =====
-- `x & (x - 1)` clears the lowest digit of `x` that is set.
use Prim.Native.Nat.{min, bit_and, bit_and-bitwise}
use Prim.Native.Nat.{ℕ, zero, suc, ◌+◌, ◌-◌, ◌*◌, ◌/◌, ◌%◌, ◌^◌, ◌≤◌, ◌<◌}
use mathlib.Core.Path.{◌≡◌, refl, ◌∙◌}
use native.Mathlib.Nat.{pow-suc, le_refl, one-le-pow}
use native.Mathlib.Decide.{ℕ_discrete}
use native.Mathlib.Omega.{arith}
use oscs25_labs.Base.Bits.{mul-pow-suc, spare_digits}

pub and_zero : (m : ℕ) → bit_and 0 m ≡ 0
and_zero m = bit_and-bitwise 0 m

-- The lowest digit, and the rest.
pub bit_and_step : (n m : ℕ) → bit_and n m ≡ min (n % 2) (m % 2) + bit_and (n / 2) (m / 2) * 2
bit_and_step zero m = omega (arith, and_zero m, and_zero (m / 2))
bit_and_step (suc n) m =
    let spare = spare_digits (λ _. 0) min n (m / 2) in
    rw (bit_and-bitwise (suc n) m, bit_and-bitwise (suc n / 2) (m / 2)) (omega (arith, spare))

bit_and_self_fuel : (n a : ℕ) → a ≤ n → bit_and a a ≡ a
bit_and_self_fuel n zero h = refl
bit_and_self_fuel zero (suc a) h = absurd (omega arith)
bit_and_self_fuel (suc n) (suc a) h =
    omega (arith, bit_and_step (suc a) (suc a), bit_and_self_fuel n (suc a / 2) (omega arith))

pub bit_and_self : (a : ℕ) → bit_and a a ≡ a
bit_and_self a = bit_and_self_fuel a a (le_refl a)

halves_even : (y : ℕ) → 0 < y → bit_and (y * 2) (y * 2 - 1) ≡ bit_and y (y - 1) * 2
halves_even y pos =
    let a : y * 2 / 2 ≡ y = omega arith in
    let b : (y * 2 - 1) / 2 ≡ y - 1 = omega arith in
    let c : y * 2 % 2 ≡ 0 = omega arith in
    rw (bit_and_step (y * 2) (y * 2 - 1), a, b, c) (omega arith)

halves_odd : (y : ℕ) → bit_and (y * 2 + 1) (y * 2) ≡ y * 2
halves_odd y =
    let a : (y * 2 + 1) / 2 ≡ y = omega arith in
    let b : y * 2 / 2 ≡ y = omega arith in
    let c : y * 2 % 2 ≡ 0 = omega arith in
    rw (bit_and_step (y * 2 + 1) (y * 2), a, b, c, bit_and_self y) (omega arith)

-- In the block of `2 ^ k` numbers from `q * 2 ^ k` on, it leads to a smaller number of the block.
pub clear_lowest :
    (k q r : ℕ)
    → 0 < r
    → r < 2 ^ k
    → (r' : ℕ) × (r' < r) × (bit_and (q * 2 ^ k + r) (q * 2 ^ k + r - 1) ≡ q * 2 ^ k + r')
clear_lowest zero q r pos low = absurd (omega arith)
clear_lowest (suc k) q r pos low = elim (ℕ_discrete (r % 2) 0) [
  | yes even ↦
      let (r', lt, e) = clear_lowest k q (r / 2) (omega arith) (omega (arith, pow-suc 2 k)) in
      let y = q * 2 ^ k + r / 2 in
      let x : q * 2 ^ suc k + r ≡ y * 2 = omega (arith, mul-pow-suc q k) in
      (r' * 2, omega arith, rw x (halves_even y (omega arith) ∙ omega (arith, e, mul-pow-suc q k)))
  | no odd ↦
      let y = q * 2 ^ k + r / 2 in
      let x : q * 2 ^ suc k + r ≡ y * 2 + 1 = omega (arith, mul-pow-suc q k) in
      let z : y * 2 + 1 - 1 ≡ y * 2 = omega arith in
      (r - 1, omega arith, rw (x, z) (halves_odd y ∙ omega (arith, mul-pow-suc q k)))
]

-- A power of two and the digits below it have none in common.
pub bit_and_pow : (k : ℕ) → bit_and (2 ^ k) (2 ^ k - 1) ≡ 0
bit_and_pow zero = omega (arith, bit_and_step 1 0, and_zero 0)
bit_and_pow (suc k) =
    let pos = one-le-pow k 2 (omega arith) in
    let a : 2 ^ suc k / 2 ≡ 2 ^ k = omega (arith, pow-suc 2 k) in
    let b : (2 ^ suc k - 1) / 2 ≡ 2 ^ k - 1 = omega (arith, pow-suc 2 k, pos) in
    let c : 2 ^ suc k % 2 ≡ 0 = omega (arith, pow-suc 2 k) in
    rw (bit_and_step (2 ^ suc k) (2 ^ suc k - 1), a, b, c, bit_and_pow k) (omega arith)

pub low_mask : (d x : ℕ) → x < 2 ^ d → bit_and x (2 ^ d - 1) ≡ x
low_mask zero x low = let e : x ≡ 0 = omega arith in rw e (and_zero (2 ^ 0 - 1))
low_mask (suc d) x low =
    let pos = one-le-pow d 2 (omega arith) in
    let a : (2 ^ suc d - 1) / 2 ≡ 2 ^ d - 1 = omega (arith, pow-suc 2 d, pos) in
    let b : (2 ^ suc d - 1) % 2 ≡ 1 = omega (arith, pow-suc 2 d, pos) in
    let rest = low_mask d (x / 2) (omega (arith, pow-suc 2 d)) in
    rw (bit_and_step x (2 ^ suc d - 1), a, b, rest) (omega arith)

-- A mask of `d` digits behind `k` zeros keeps the multiple of `2 ^ k`.
pub high_mask :
    (k d x : ℕ)
    → x < 2 ^ d * 2 ^ k
    → (q : ℕ) × (bit_and x ((2 ^ d - 1) * 2 ^ k) ≡ q * 2 ^ k)
      × (q * 2 ^ k ≤ x)
      × (x < q * 2 ^ k + 2 ^ k)
high_mask zero d x low =
    let m : (2 ^ d - 1) * 2 ^ 0 ≡ 2 ^ d - 1 = omega arith in
    (x, rw m (low_mask d x (omega arith) ∙ omega arith), omega arith, omega arith)
high_mask (suc k) d x low =
    let (q, e, lo, hi) = high_mask k d (x / 2) (omega (arith, mul-pow-suc (2 ^ d) k)) in
    let a : (2 ^ d - 1) * 2 ^ suc k / 2 ≡ (2 ^ d - 1) * 2 ^ k =
      omega (arith, mul-pow-suc (2 ^ d - 1) k) in
    let b : (2 ^ d - 1) * 2 ^ suc k % 2 ≡ 0 = omega (arith, mul-pow-suc (2 ^ d - 1) k) in
    (
      q,
      rw (bit_and_step x ((2 ^ d - 1) * 2 ^ suc k), a, b, e) (omega (arith, mul-pow-suc q k)),
      omega (arith, mul-pow-suc q k),
      omega (arith, mul-pow-suc q k, pow-suc 2 k),
    )
