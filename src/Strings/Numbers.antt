-- ===== src/Strings/Numbers.antt =====
-- `atoui` against the value of a numeral by places.
use native.Mathlib.Nat.{pow-suc, pow-zero, mul-one, add-mul, mul_right_comm}
use oscs25_labs.Base.{
  ℕ, ◌+◌, ◌*◌, ◌/◌, ◌<◌, ◌%◌, ◌^◌, Bool, true, false, ◌&&◌, List, [], ◌∷◌, ◌≡◌, refl, sym, ◌∙◌, ap,
  if◌then◌else◌, length, Bool-cases, inl, inr, arith,
}
use oscs25_labs.Strings.{minus_one, ctoi, atoui_loop}

abbrev pub all : (ℕ → Bool) → List ℕ → Bool
all accepts [] = true
all accepts (c ∷ str) = accepts c && all accepts str

-- The value by places: the digit before `n` others counts `base ^ n`.
abbrev pub value : (base : ℕ) → List ℕ → ℕ
value base [] = 0
value base (c ∷ str) = ctoi c * base ^ length str + value base str

mul_rem : (x q r b : ℕ) → x ≡ q * 2 ^ 32 + r → x * b ≡ q * b * 2 ^ 32 + r * b
mul_rem x q r b e =
    rw e (add-mul (q * 2 ^ 32) r b ∙ ap (λ (t : ℕ). t + r * b) (mul_right_comm q (2 ^ 32) b))

-- A reduction before a multiplication does not change the remainder.
rem_mul : (x b v : ℕ) → (x % 2 ^ 32 * b + v) % 2 ^ 32 ≡ (x * b + v) % 2 ^ 32
rem_mul x b v = omega (arith, mul_rem x (x / 2 ^ 32) (x % 2 ^ 32) b (omega arith))

place : (num base d b : ℕ) → (num * base + d) * b ≡ num * (base * b) + d * b
place num base d b = grind arith

loop_value :
    (accepts : ℕ → Bool) (base num : ℕ) (str : List ℕ)
    → num < 2 ^ 32
    → all accepts str ≡ true
    → atoui_loop accepts base num str ≡ (num * base ^ length str + value base str) % 2 ^ 32
unfolding atoui_loop
loop_value accepts base num [] small ok =
    let one : num * base ^ 0 ≡ num = ap (λ (p : ℕ). num * p) (pow-zero base) ∙ mul-one num in
    let same : num % 2 ^ 32 ≡ num = omega arith in
    sym (ap (λ (n : ℕ). (n + 0) % 2 ^ 32) one ∙ omega arith)
loop_value accepts base num (c ∷ str) small ok = elim (Bool-cases (accepts c)) [
  | inl good ↦
      let rest_ok : all accepts str ≡ true = rw good at ok in
      let step : (num * base % 2 ^ 32 + ctoi c) % 2 ^ 32 ≡ (num * base + ctoi c) % 2 ^ 32 =
        omega arith in
      let b = base ^ length str in
      let v = value base str in
      rw good (
        loop_value accepts base ((num * base % 2 ^ 32 + ctoi c) % 2 ^ 32) str (omega arith) rest_ok
        ∙ ap (λ (n : ℕ). (n * b + v) % 2 ^ 32) step
        ∙ rem_mul (num * base + ctoi c) b v
        ∙ omega
            (arith, place num base (ctoi c) b, ap (λ (p : ℕ). num * p) (pow-suc base (length str))))
  | inr bad ↦ absurd (cc (rw bad at ok))
]

pub loop_error :
    (accepts : ℕ → Bool) (base num : ℕ) (str : List ℕ)
    → all accepts str ≡ false
    → atoui_loop accepts base num str ≡ minus_one
unfolding atoui_loop
loop_error accepts base num [] bad = absurd (cc bad)
loop_error accepts base num (c ∷ str) bad = elim (Bool-cases (accepts c)) [
  | inl good ↦
      rw good
        (loop_error accepts base ((num * base % 2 ^ 32 + ctoi c) % 2 ^ 32) str (rw good at bad))
  | inr stop ↦ rw stop refl
]

pub numeral :
    (accepts : ℕ → Bool) (base : ℕ) (str : List ℕ)
    → atoui_loop accepts base 0 str
      ≡ (if all accepts str then value base str % 2 ^ 32 else minus_one)
numeral accepts base str = elim (Bool-cases (all accepts str)) [
  | inl ok ↦ rw ok (loop_value accepts base 0 str (omega arith) ok ∙ omega arith)
  | inr bad ↦ rw bad (loop_error accepts base 0 str bad)
]
