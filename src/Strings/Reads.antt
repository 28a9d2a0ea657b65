-- ===== src/Strings/Reads.antt =====
-- What `atoui` reads, by an independent description of numerals.
use oscs25_labs.Base.{
  subst, suc, ◌-◌, ◌==◌, ℕ, ◌+◌, ◌*◌, ◌<◌, ◌≤◌, ◌++◌, ◌⊎◌, ◌≢◌, ◌%◌, ◌^◌, Bool, true, false, ◌&&◌,
  List, [], ◌∷◌, ◌≡◌, refl, ◌∙◌, ap, length, Bool-cases, inl, inr, arith,
}
use oscs25_labs.Strings.{
  Radix, to_lower, dec, hex, is_digit, is_hex_digit, ctoi, atoui_loop, atoui, skip_prefix,
}
use oscs25_labs.Strings.Numbers.{all, value, loop_error, numeral}

-- The character of a digit, a letter in either case.
abbrev pub IsDecChar : (c d : ℕ) → Type 0
IsDecChar c d = (d < 10) × (c ≡ 48 + d)

abbrev pub IsHexChar : (c d : ℕ) → Type 0
IsHexChar c d = ((d < 10) × (c ≡ 48 + d)) ⊎ ((10 ≤ d) × (d < 16) × ((c ≡ 55 + d) ⊎ (c ≡ 87 + d)))

-- The characters are those of the digits.
abbrev pub Spells : (ℕ → ℕ → Type 0) → List ℕ → List ℕ → Type 0
Spells char [] [] = Unit
Spells char [] (d ∷ ds) = ⊥
Spells char (c ∷ str) [] = ⊥
Spells char (c ∷ str) (d ∷ ds) = char c d × Spells char str ds

abbrev pub by_places : (base : ℕ) → List ℕ → ℕ
by_places base [] = 0
by_places base (d ∷ ds) = d * base ^ length ds + by_places base ds

-- A string with a character that is none of a digit.
abbrev pub OtherDec : ℕ → Type 0
OtherDec c = (c < 48) ⊎ (57 < c)

abbrev pub OtherHex : ℕ → Type 0
OtherHex c = (c < 48) ⊎ ((57 < c) × (c < 65)) ⊎ ((70 < c) × (c < 97)) ⊎ (102 < c)

dec_char : (c d : ℕ) → IsDecChar c d → (is_digit c ≡ true) × (ctoi c ≡ d)
unfolding is_digit ctoi
dec_char c d (low, e) =
    let digit : is_digit c ≡ true = ground arith in (digit, rw digit (omega arith))

hex_char : (c d : ℕ) → IsHexChar c d → (is_hex_digit c ≡ true) × (ctoi c ≡ d)
unfolding is_hex_digit is_digit to_lower ctoi
hex_char c d (inl (low, e)) = (ground arith, ground arith)
hex_char c d (inr (low, high, e)) = (ground arith, ground arith)

no_dec : (c : ℕ) → OtherDec c → is_digit c ≡ false
unfolding is_digit
no_dec c other = ground arith

no_hex : (c : ℕ) → OtherHex c → is_hex_digit c ≡ false
unfolding is_hex_digit is_digit to_lower
no_hex c other = ground arith

-- The tests and values of the code for the characters of digits.
module _ (accepts : ℕ → Bool) (char : ℕ → ℕ → Type 0) (base : ℕ)
    (reads : (c d : ℕ) → char c d → (accepts c ≡ true) × (ctoi c ≡ d)) where
  spelled :
      (str ds : List ℕ)
      → Spells char str ds
      → (all accepts str ≡ true) × (length str ≡ length ds) × (value base str ≡ by_places base ds)
  spelled [] [] sp = (refl, refl, refl)
  spelled [] (d ∷ ds) sp = absurd sp
  spelled (c ∷ str) [] sp = absurd sp
  spelled (c ∷ str) (d ∷ ds) (here, sp) =
      let (good, digit) = reads c d here in
      let (ok, len, val) = spelled str ds sp in (rw good ok, ap suc len, rw (digit, len, val) refl)

  spelled_value :
      (str ds : List ℕ)
      → Spells char str ds
      → atoui_loop accepts base 0 str ≡ by_places base ds % 2 ^ 32
  spelled_value str ds sp =
      let (ok, len, val) = spelled str ds sp in
      numeral accepts base str ∙ rw ok (ap (λ (n : ℕ). n % 2 ^ 32) val)

all_other :
    (accepts : ℕ → Bool) (xs : List ℕ) (c : ℕ) (ys : List ℕ)
    → accepts c ≡ false
    → all accepts (xs ++ c ∷ ys) ≡ false
all_other accepts [] c ys bad = rw bad refl
all_other accepts (x ∷ xs) c ys bad = let rest = all_other accepts xs c ys bad in ground arith

other_value :
    (accepts : ℕ → Bool) (base : ℕ) (xs : List ℕ) (c : ℕ) (ys : List ℕ)
    → accepts c ≡ false
    → atoui_loop accepts base 0 (xs ++ c ∷ ys) ≡ 2 ^ 32 - 1
other_value accepts base xs c ys bad =
    loop_error accepts base 0 (xs ++ c ∷ ys) (all_other accepts xs c ys bad)

abbrev pub NoPrefix : List ℕ → Type 0
NoPrefix str = (rest : List ℕ) → str ≢ 48 ∷ 120 ∷ rest

skip_prefix_none : (str : List ℕ) → NoPrefix str → skip_prefix str ≡ str
unfolding skip_prefix
skip_prefix_none [] np = refl
skip_prefix_none (c ∷ []) np = refl
skip_prefix_none (c ∷ d ∷ str) np = elim (Bool-cases ((c == 48) && (d == 120))) [
  | inl prefix ↦
      let zero_char : c ≡ 48 = ground arith in
      let x_char : d ≡ 120 = ground arith in absurd (np str (rw (zero_char, x_char) refl))
  | inr other ↦ rw other refl
]

skip_prefix_here : (str : List ℕ) → skip_prefix (48 ∷ 120 ∷ str) ≡ str
unfolding skip_prefix
skip_prefix_here str = refl

x_unspelled : (rest ds : List ℕ) → Spells IsHexChar (48 ∷ 120 ∷ rest) ds → ⊥
x_unspelled rest [] sp = sp
x_unspelled rest (d ∷ []) sp = sp.1
x_unspelled rest (d ∷ d' ∷ ds) (_, (x, _)) = omega (arith, x)

spelled-NoPrefix : (str ds : List ℕ) → Spells IsHexChar str ds → NoPrefix str
spelled-NoPrefix str ds sp rest e =
    x_unspelled rest ds (subst (λ (l : List ℕ). Spells IsHexChar l ds) e sp)

-- The number that a string stands for, or -1. A hexadecimal one may begin with `0x`.
pub data Reads : Radix → List ℕ → ℕ → Type 0 where
  dec_digits :
      (str ds : List ℕ) → Spells IsDecChar str ds → Reads dec str (by_places 10 ds % 2 ^ 32)
  dec_other :
      (xs : List ℕ) (c : ℕ) (ys : List ℕ) → OtherDec c → Reads dec (xs ++ c ∷ ys) (2 ^ 32 - 1)
  hex_digits :
      (str ds : List ℕ) → Spells IsHexChar str ds → Reads hex str (by_places 16 ds % 2 ^ 32)
  hex_prefixed :
      (str ds : List ℕ)
      → Spells IsHexChar str ds
      → Reads hex (48 ∷ 120 ∷ str) (by_places 16 ds % 2 ^ 32)
  hex_other :
      (xs : List ℕ) (c : ℕ) (ys : List ℕ)
      → OtherHex c
      → NoPrefix (xs ++ c ∷ ys)
      → Reads hex (xs ++ c ∷ ys) (2 ^ 32 - 1)
  hex_prefixed_other :
      (xs : List ℕ) (c : ℕ) (ys : List ℕ)
      → OtherHex c
      → Reads hex (48 ∷ 120 ∷ (xs ++ c ∷ ys)) (2 ^ 32 - 1)

-- atoui gives what the string stands for: characters 0 to 9, or with HEX also a to f and A to F
-- behind an optional 0x, have the value of their digits by places, modulo 2 ^ 32, and any other
-- character makes the result -1.
pub atoui-Reads : {rad : Radix} {str : List ℕ} {n : ℕ} → Reads rad str n → atoui str rad ≡ n
unfolding atoui
atoui-Reads (dec_digits str ds sp) = spelled_value is_digit IsDecChar 10 dec_char str ds sp
atoui-Reads (dec_other xs c ys other) = other_value is_digit 10 xs c ys (no_dec c other)
atoui-Reads (hex_digits str ds sp) =
    rw (skip_prefix_none str (spelled-NoPrefix str ds sp))
      (spelled_value is_hex_digit IsHexChar 16 hex_char str ds sp)
atoui-Reads (hex_prefixed str ds sp) =
    rw (skip_prefix_here str) (spelled_value is_hex_digit IsHexChar 16 hex_char str ds sp)
atoui-Reads (hex_other xs c ys other np) =
    rw (skip_prefix_none (xs ++ c ∷ ys) np) (other_value is_hex_digit 16 xs c ys (no_hex c other))
atoui-Reads (hex_prefixed_other xs c ys other) =
    rw (skip_prefix_here (xs ++ c ∷ ys)) (other_value is_hex_digit 16 xs c ys (no_hex c other))
