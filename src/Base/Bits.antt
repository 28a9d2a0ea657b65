-- ===== src/Base/Bits.antt =====
-- Exclusive or with one bit, and multiples of a power of two, at variables.
use Prim.Native.Nat.{digits, differ, bit_xor, bit_xor-bitwise}
use Prim.Native.Nat.{ℕ, zero, suc, ◌+◌, ◌-◌, ◌*◌, ◌/◌, ◌%◌, ◌^◌, ◌≤◌, ◌<◌}
use Prim.Native.Nat.add
use mathlib.Core.Path.{subst, ◌≡◌, refl, ap, ap₂, sym, ◌∙◌}
use mathlib.Core.Logic.{◌⊎◌, inl, inr}
use native.Mathlib.Nat.{pow-suc, le_refl, mul-one, one-mul}
use native.Mathlib.Decide.{ℕ_discrete, dec_lt}
use native.Mathlib.Omega.{arith}

-- One digit more than are needed changes nothing, and so any count that is large enough will do.
module _ (z : ℕ → ℕ) (f : ℕ → ℕ → ℕ) where
  one_more : (b a n : ℕ) → a ≤ n → digits z f (suc n) a b ≡ digits z f n a b
  one_more b zero zero le = refl
  one_more b zero (suc n) le = refl
  one_more b (suc a) zero le = absurd (omega arith)
  one_more b (suc a) (suc n) le =
      ap (λ (t : ℕ). t * 2 + f (suc a % 2) (b % 2)) (one_more (b / 2) (suc a / 2) n (omega arith))

  many_more : (k m n a b : ℕ) → m ≡ n + k → a ≤ n → digits z f m a b ≡ digits z f n a b
  many_more zero m n a b e le = let same : m ≡ n = omega arith in rw same refl
  many_more (suc k) zero n a b e le = absurd (omega arith)
  many_more (suc k) (suc m) n a b e le =
      one_more b a m (omega arith) ∙ many_more k m n a b (omega arith) le

  pub spare_digits : (a b : ℕ) → digits z f a (suc a / 2) b ≡ digits z f (suc a / 2) (suc a / 2) b
  spare_digits a b = many_more (a - suc a / 2) a (suc a / 2) (suc a / 2) b (omega arith) (le_refl _)

differ-zero : (b : ℕ) → differ 0 b ≡ b
differ-zero b = refl

differ_zero_right : (d : ℕ) → differ d 0 ≡ d
differ_zero_right zero = refl
differ_zero_right (suc d) = refl

differ-one : (d : ℕ) → d < 2 → differ d 1 ≡ 1 - d
differ-one zero h = refl
differ-one (suc zero) h = refl
differ-one (suc (suc d)) h = absurd (omega arith)

pub bit_xor_step : (a b : ℕ) → bit_xor a b ≡ bit_xor (a / 2) (b / 2) * 2 + differ (a % 2) (b % 2)
bit_xor_step zero b = simp bit_xor-bitwise (omega (arith, differ-zero (b % 2)))
bit_xor_step (suc a) b =
    simp bit_xor-bitwise
      (ap (λ (t : ℕ). t * 2 + differ (suc a % 2) (b % 2)) (spare_digits (λ y. y) differ a (b / 2)))

bit_xor-zero_fuel : (n a : ℕ) → a ≤ n → bit_xor a 0 ≡ a
bit_xor-zero_fuel n zero h = refl
bit_xor-zero_fuel zero (suc a) h = absurd (omega arith)
bit_xor-zero_fuel (suc n) (suc a) h = omega (
  arith,
  bit_xor_step (suc a) 0,
  differ_zero_right (suc a % 2),
  bit_xor-zero_fuel n (suc a / 2) (omega arith),
)

pub bit_xor-zero : (a : ℕ) → bit_xor a 0 ≡ a
bit_xor-zero a = bit_xor-zero_fuel a a (le_refl a)

pub bit_xor_even : (q : ℕ) → bit_xor (q * 2) 1 ≡ q * 2 + 1
bit_xor_even q =
    omega (arith, bit_xor_step (q * 2) 1, differ-one (q * 2 % 2), bit_xor-zero (q * 2 / 2))

pub bit_xor_odd : (q : ℕ) → bit_xor (q * 2 + 1) 1 ≡ q * 2
bit_xor_odd q = omega (
  arith,
  bit_xor_step (q * 2 + 1) 1,
  differ-one ((q * 2 + 1) % 2),
  bit_xor-zero ((q * 2 + 1) / 2),
)

pub mul-pow-suc : (q k : ℕ) → q * 2 ^ suc k ≡ q * 2 ^ k * 2
mul-pow-suc q k = omega (arith, ap (λ (t : ℕ). q * t) (pow-suc 2 k))

half-double : (x : ℕ) → x * 2 / 2 ≡ x
half-double x = omega arith

double-even : (x : ℕ) → x * 2 % 2 ≡ 0
double-even x = omega arith

xor_double : (x y : ℕ) → bit_xor (x * 2) (y * 2) ≡ bit_xor x y * 2
xor_double x y =
    rw (bit_xor_step (x * 2) (y * 2), half-double x, half-double y, double-even x, double-even y)
      (omega arith)

pub bit_xor_shift : (l a b : ℕ) → bit_xor (a * 2 ^ l) (b * 2 ^ l) ≡ bit_xor a b * 2 ^ l
bit_xor_shift zero a b = ap₂ bit_xor (mul-one a) (mul-one b) ∙ sym (mul-one (bit_xor a b))
bit_xor_shift (suc l) a b =
    rw (mul-pow-suc a l, mul-pow-suc b l, mul-pow-suc (bit_xor a b) l)
      (xor_double (a * 2 ^ l) (b * 2 ^ l) ∙ ap (λ (t : ℕ). t * 2) (bit_xor_shift l a b))

-- `i` is a multiple of `2 ^ l`.
abbrev pub Aligned : ℕ → ℕ → Type 0
Aligned l i = (q : ℕ) × (i ≡ q * 2 ^ l)

xor_one_shift : (l a : ℕ) → bit_xor (a * 2 ^ l) (2 ^ l) ≡ bit_xor a 1 * 2 ^ l
xor_one_shift l a = ap (bit_xor (a * 2 ^ l)) (sym (one-mul (2 ^ l))) ∙ bit_xor_shift l a 1

-- The buddy of an aligned block is the other half of an aligned block of twice the size.
pub buddy_upper : (l i : ℕ) → Aligned (suc l) i → bit_xor i (2 ^ l) ≡ i + 2 ^ l
buddy_upper l i (q, e) =
    let i-eq : i ≡ q * 2 * 2 ^ l = omega (arith, mul-pow-suc q l) in
    rw (i-eq, xor_one_shift l (q * 2), bit_xor_even q) (omega arith)

pub buddy_lower : (l i : ℕ) → Aligned (suc l) i → bit_xor (i + 2 ^ l) (2 ^ l) ≡ i
buddy_lower l i (q, e) =
    let i-eq : i ≡ q * 2 * 2 ^ l = omega (arith, mul-pow-suc q l) in
    let up-eq : i + 2 ^ l ≡ (q * 2 + 1) * 2 ^ l = omega arith in
    rw (up-eq, xor_one_shift l (q * 2 + 1), bit_xor_odd q) (sym i-eq)

pub Aligned-cases :
    (l i : ℕ) → Aligned l i → Aligned (suc l) i ⊎ ((u : ℕ) × Aligned (suc l) u × (i ≡ u + 2 ^ l))
Aligned-cases l i (q, e) = elim (ℕ_discrete (q % 2) 0) [
  | yes h ↦
      let q-eq : q ≡ q / 2 * 2 = omega arith in
      inl (q / 2, e ∙ ap (λ (t : ℕ). t * 2 ^ l) q-eq ∙ omega (arith, mul-pow-suc (q / 2) l))
  | no h ↦
      let q-eq : q ≡ q / 2 * 2 + 1 = omega arith in
      inr (
        q / 2 * 2 ^ suc l,
        (q / 2, refl),
        e ∙ ap (λ (t : ℕ). t * 2 ^ l) q-eq ∙ omega (arith, mul-pow-suc (q / 2) l),
      )
]

-- Multiples of a power of two are multiples of the smaller powers.
pub Aligned-add : (d l i : ℕ) → Aligned (d + l) i → Aligned l i
Aligned-add zero l i al = rw add.zero at al
Aligned-add (suc d) l i (q, e) =
    Aligned-add d l i
      (q * 2, e ∙ ap (λ (k : ℕ). q * 2 ^ k) (add.suc d l) ∙ omega (arith, mul-pow-suc q (d + l)))

pub Aligned-le : (k l i : ℕ) → l ≤ k → Aligned k i → Aligned l i
Aligned-le k l i h al = Aligned-add (k - l) l i (subst (λ (m : ℕ). Aligned m i) (omega arith) al)

mul_mono : (a b p : ℕ) → a ≤ b → a * p ≤ b * p
mul_mono a b p h = grind arith

-- Two multiples of a power of two lie at least that power apart.
pub Aligned-gap : (k a b : ℕ) → Aligned k a → Aligned k b → a < b → a + 2 ^ k ≤ b
Aligned-gap k a b (q, e) (r, e') lt = elim (dec_lt q r) [
  | yes h ↦ omega (arith, mul_mono (q + 1) r (2 ^ k) (omega arith))
  | no h ↦ absurd (omega (arith, mul_mono r q (2 ^ k) (omega arith)))
]
