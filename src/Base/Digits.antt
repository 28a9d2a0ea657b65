-- ===== src/Base/Digits.antt =====
-- Single binary digits: what `|` sets and `& ~` clears.
use Prim.Native.Nat.{max, bit_and, bit_or, bit_or-bitwise}
use Prim.Native.Nat.{ℕ, zero, suc, ◌+◌, ◌-◌, ◌*◌, ◌/◌, ◌%◌, ◌^◌, ◌≤◌, ◌<◌}
use mathlib.Core.Path.{◌≡◌, refl, ap}
use mathlib.Core.Logic.{◌≢◌, ◌⊎◌, inl, inr}
use native.Mathlib.Nat.{pow-suc, one-le-pow, le_refl}
use native.Mathlib.Omega.{arith}
use oscs25_labs.Base.Bits.{spare_digits}
use oscs25_labs.Base.LowBit.{bit_and_step, low_mask}

-- The digit of a number at a place, from the lowest on.
abbrev pub digit_at : (place n : ℕ) → ℕ
digit_at zero n = n % 2
digit_at (suc place) n = digit_at place (n / 2)

or_zero : (m : ℕ) → bit_or 0 m ≡ m
or_zero m = bit_or-bitwise 0 m

bit_or_step : (n m : ℕ) → bit_or n m ≡ max (n % 2) (m % 2) + bit_or (n / 2) (m / 2) * 2
bit_or_step zero m = omega (arith, or_zero m, or_zero (m / 2))
bit_or_step (suc n) m =
    let spare = spare_digits (λ y. y) max n (m / 2) in
    rw (bit_or-bitwise (suc n) m, bit_or-bitwise (suc n / 2) (m / 2)) (omega (arith, spare))

or_zero_fuel : (fuel n : ℕ) → n ≤ fuel → bit_or n 0 ≡ n
or_zero_fuel fuel zero h = or_zero 0
or_zero_fuel zero (suc n) h = absurd (omega arith)
or_zero_fuel (suc fuel) (suc n) h =
    omega (arith, bit_or_step (suc n) 0, or_zero_fuel fuel (suc n / 2) (omega arith))

or_zero_right : (n : ℕ) → bit_or n 0 ≡ n
or_zero_right n = or_zero_fuel n n (le_refl n)

-- A digit that is clear is set by `|`.
pub set_digit : (place n : ℕ) → digit_at place n ≡ 0 → bit_or n (2 ^ place) ≡ n + 2 ^ place
set_digit zero n clear = omega (arith, bit_or_step n 1, or_zero_right (n / 2))
set_digit (suc place) n clear =
    let a : 2 ^ suc place / 2 ≡ 2 ^ place = omega (arith, pow-suc 2 place) in
    let b : 2 ^ suc place % 2 ≡ 0 = omega (arith, pow-suc 2 place) in
    rw (bit_or_step n (2 ^ suc place), a, b, set_digit place (n / 2) clear)
      (omega (arith, pow-suc 2 place))

-- A digit that is set is cleared by `&` with all ones but that one.
pub clear_digit :
    (width place n : ℕ)
    → place < width
    → n + 2 ^ place < 2 ^ width
    → digit_at place n ≡ 0
    → bit_and (n + 2 ^ place) (2 ^ width - 1 - 2 ^ place) ≡ n
clear_digit zero place n inside low clear = absurd (omega arith)
clear_digit (suc width) zero n inside low clear =
    let pos = one-le-pow width 2 (omega arith) in
    let a : (2 ^ suc width - 1 - 2 ^ 0) / 2 ≡ 2 ^ width - 1 = omega (arith, pow-suc 2 width) in
    let b : (2 ^ suc width - 1 - 2 ^ 0) % 2 ≡ 0 = omega (arith, pow-suc 2 width) in
    let c : (n + 2 ^ 0) / 2 ≡ n / 2 = omega arith in
    let rest = low_mask width (n / 2) (omega (arith, pow-suc 2 width)) in
    rw (bit_and_step (n + 2 ^ 0) (2 ^ suc width - 1 - 2 ^ 0), a, b, c, rest) (omega arith)
clear_digit (suc width) (suc place) n inside low clear =
    let whole = pow-suc 2 width in
    let part = pow-suc 2 place in
    let a : (2 ^ suc width - 1 - 2 ^ suc place) / 2 ≡ 2 ^ width - 1 - 2 ^ place = omega arith in
    let b : (2 ^ suc width - 1 - 2 ^ suc place) % 2 ≡ 1 = omega arith in
    let c : (n + 2 ^ suc place) / 2 ≡ n / 2 + 2 ^ place = omega arith in
    let d : (n + 2 ^ suc place) % 2 ≡ n % 2 = omega arith in
    let rest = clear_digit width place (n / 2) (omega arith) (omega arith) clear in
    rw (bit_and_step (n + 2 ^ suc place) (2 ^ suc width - 1 - 2 ^ suc place), a, b, c, d, rest)
      (omega arith)

pub digit_here : (place n : ℕ) → digit_at place n ≡ 0 → digit_at place (n + 2 ^ place) ≡ 1
digit_here zero n clear = omega arith
digit_here (suc place) n clear =
    let half : (n + 2 ^ suc place) / 2 ≡ n / 2 + 2 ^ place = omega (arith, pow-suc 2 place) in
    rw half (digit_here place (n / 2) clear)

pub digit_elsewhere :
    (place other n : ℕ)
    → digit_at place n ≡ 0
    → other ≢ place
    → digit_at other (n + 2 ^ place) ≡ digit_at other n
digit_elsewhere zero zero n clear ne = absurd (ne refl)
digit_elsewhere zero (suc other) n clear ne =
    let half : (n + 2 ^ 0) / 2 ≡ n / 2 = omega arith in rw half refl
digit_elsewhere (suc place) zero n clear ne = omega (arith, pow-suc 2 place)
digit_elsewhere (suc place) (suc other) n clear ne =
    let half : (n + 2 ^ suc place) / 2 ≡ n / 2 + 2 ^ place = omega (arith, pow-suc 2 place) in
    rw half (digit_elsewhere place other (n / 2) clear (λ e. ne (ap suc e)))

-- A number with a digit set is one with that digit clear, and the digit.
pub digit_apart :
    (place n : ℕ) → digit_at place n ≡ 1 → (m : ℕ) × (n ≡ m + 2 ^ place) × (digit_at place m ≡ 0)
digit_apart zero n set = (n - 1, omega arith, omega arith)
digit_apart (suc place) n set =
    let (m, e, clear) = digit_apart place (n / 2) set in
    let half : (m * 2 + n % 2) / 2 ≡ m = omega arith in
    (m * 2 + n % 2, omega (arith, pow-suc 2 place), rw half clear)

pub digit_cases : (place n : ℕ) → (digit_at place n ≡ 0) ⊎ (digit_at place n ≡ 1)
digit_cases zero n = omega arith
digit_cases (suc place) n = digit_cases place (n / 2)

-- The digits that are clear among the lowest.
abbrev pub clear_count : (digits n : ℕ) → ℕ
clear_count zero n = 0
clear_count (suc digits) n = 1 - n % 2 + clear_count digits (n / 2)

pub clear_count-set :
    (digits place n : ℕ)
    → place < digits
    → digit_at place n ≡ 0
    → clear_count digits n ≡ suc (clear_count digits (n + 2 ^ place))
clear_count-set zero place n inside clear = absurd (omega arith)
clear_count-set (suc digits) zero n inside clear =
    let half : (n + 2 ^ 0) / 2 ≡ n / 2 = omega arith in rw half (omega arith)
clear_count-set (suc digits) (suc place) n inside clear =
    let half : (n + 2 ^ suc place) / 2 ≡ n / 2 + 2 ^ place = omega (arith, pow-suc 2 place) in
    let low : (n + 2 ^ suc place) % 2 ≡ n % 2 = omega (arith, pow-suc 2 place) in
    rw (half, low) (omega (arith, clear_count-set digits place (n / 2) (omega arith) clear))

lower :
    (n place : ℕ)
    → n % 2 ≡ 1
    → ((other : ℕ) → other < place → digit_at other (n / 2) ≡ 1)
    → (other : ℕ) → other < suc place
    → digit_at other n ≡ 1
lower n place set below zero low = set
lower n place set below (suc other) low = below other (omega arith)

-- Where some are clear, one is the lowest.
pub clear_lowest_of :
    (digits n : ℕ)
    → 0 < clear_count digits n
    → (place : ℕ) × (place < digits)
      × (digit_at place n ≡ 0)
      × ((other : ℕ) → other < place → digit_at other n ≡ 1)
clear_lowest_of zero n some_clear = absurd (omega arith)
clear_lowest_of (suc digits) n some_clear = elim (digit_cases 0 n) [
  | inl clear ↦ (0, omega arith, clear, λ other low. absurd (omega arith))
  | inr set ↦
      let (place, inside, clear, below) = clear_lowest_of digits (n / 2) (omega arith) in
      (suc place, omega arith, clear, lower n place set below)
]

-- No more digits are needed.
pub set_low :
    (digits place n : ℕ)
    → place < digits
    → n < 2 ^ digits
    → digit_at place n ≡ 0
    → n + 2 ^ place < 2 ^ digits
set_low zero place n inside low clear = absurd (omega arith)
set_low (suc digits) zero n inside low clear = omega (arith, pow-suc 2 digits)
set_low (suc digits) (suc place) n inside low clear =
    let rest = set_low digits place (n / 2) (omega arith) (omega (arith, pow-suc 2 digits)) clear in
    omega (arith, pow-suc 2 digits, pow-suc 2 place)

pub clear_count_le : (digits n : ℕ) → clear_count digits n ≤ digits
clear_count_le zero n = omega arith
clear_count_le (suc digits) n = omega (arith, clear_count_le digits (n / 2))
