-- ===== src/Ramdisk/Field.antt =====
-- The numbers of a header: eight hexadecimal digits, of which the code reads the last six.
use oscs25_labs.Base.{
  ℕ, ◌+◌, ◌-◌, ◌/◌, ◌%◌, ◌^◌, ◌≤◌, ◌<◌, ◌≡◌, ◌⊎◌, inl, inr, ap, true, false, ◌&&◌, some, ltb, leb,
  arith,
}
use oscs25_labs.Strings.{hex}
use oscs25_labs.Strings.Format.{carrtoi, carr_loop, carr_digit}

-- The character of a digit, a letter in either case.
abbrev pub IsHexDigit : (c d : ℕ) → Type 0
IsHexDigit c d = ((d < 10) × (c ≡ 48 + d)) ⊎ ((10 ≤ d) × (d < 16) × ((c ≡ 55 + d) ⊎ (c ≡ 87 + d)))

letter_digit :
    (c d : ℕ)
    → (leb c 57 && leb 48 c) ≡ false
    → (leb 65 c && leb c 102) ≡ true
    → (c - 65) % 32 + 10 ≡ d
    → d < 16
    → carr_digit hex c ≡ some d
unfolding carr_digit
letter_digit c d no_digit letter value small =
    let low : ltb 5 ((c - 65) % 32) ≡ false = ground arith in
    rw (no_digit, letter, low) (ap some (omega arith))

pub carr_digit_hex : (c d : ℕ) → IsHexDigit c d → carr_digit hex c ≡ some d
unfolding carr_digit
carr_digit_hex c d (inl (small, e)) =
    let digit : (leb c 57 && leb 48 c) ≡ true = ground arith in rw digit (ap some (omega arith))
carr_digit_hex c d (inr (low, high, inl e)) =
    letter_digit c d (ground arith) (ground arith) (omega arith) high
carr_digit_hex c d (inr (low, high, inr e)) =
    letter_digit c d (ground arith) (ground arith) (omega arith) high

-- The field at an address holds `v`, which is below 2 ^ 24: of the eight digits the first two are
-- zero, which `carrtoi` does not read.
pub record IsField (memory : ℕ → ℕ) (addr v : ℕ) : Type 0 where
  pub small : v < 2 ^ 24
  pub digits : (i : ℕ) → i < 8 → IsHexDigit (memory (addr + i)) (v / 16 ^ (7 - i) % 16)

pub carrtoi-IsField :
    (memory : ℕ → ℕ) (addr v : ℕ)
    → IsField memory addr v
    → carrtoi (λ i. memory (addr + i)) 8 hex ≡ some v
unfolding carrtoi carr_loop
carrtoi-IsField memory addr v f =
    let digit : (i : ℕ)
        → i < 8
        → carr_digit hex (memory (addr + i)) ≡ some (v / 16 ^ (7 - i) % 16) =
      λ i lt. carr_digit_hex (memory (addr + i)) (v / 16 ^ (7 - i) % 16) (f.digits i lt) in
    rw
      (
        digit 2 (omega arith),
        digit 3 (omega arith),
        digit 4 (omega arith),
        digit 5 (omega arith),
        digit 6 (omega arith),
        digit 7 (omega arith),
      )
      (ap some (omega (arith, f.small)))
