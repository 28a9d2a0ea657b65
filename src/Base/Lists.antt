-- ===== src/Base/Lists.antt =====
-- Lists measured and indexed by native numbers, and lists of identifiers without repetition.
use Prim.Native.Nat.{ℕ, zero, suc, ◌+◌}
use mathlib.Core.Path.{◌≡◌, refl, ap}
use mathlib.Core.Bool.{Bool, true, false, ◌||◌}
use mathlib.Core.List.{List, [], ◌∷◌, ◌++◌}
use mathlib.Core.Option.{Option, some}
use native.Mathlib.Decide.{ℕ_discrete}
use native.Mathlib.Omega.{arith}
use mathlib.Core.Logic.{◌≢◌, ◌⊎◌, inl, inr}
use oscs25_labs.Base.Tests.{◌==◌, ==_iff, Bool-cases, update, if◌then◌else◌}

module _ {ℓ} {A : Type ℓ} where
  abbrev pub length : List A → ℕ
  length [] = 0
  length (_ ∷ xs) = suc (length xs)

  pub length-append : (xs ys : List A) → length (xs ++ ys) ≡ length xs + length ys
  length-append [] ys = omega arith
  length-append (x ∷ xs) ys = omega (arith, length-append xs ys)

  -- The first element, or what follows an empty list.
  abbrev pub first_or : List A → Option A → Option A
  first_or [] e = e
  first_or (x ∷ _) e = some x

  -- The last element, or what precedes an empty list.
  abbrev pub last_or : Option A → List A → Option A
  last_or p [] = p
  last_or p (x ∷ xs) = last_or (some x) xs

abbrev pub mem : ℕ → List ℕ → Bool
mem a [] = false
mem a (x ∷ xs) = (a == x) || mem a xs

abbrev pub remove : ℕ → List ℕ → List ℕ
remove a [] = []
remove a (x ∷ xs) = if a == x then xs else x ∷ remove a xs

abbrev pub Distinct : List ℕ → Type 0
Distinct [] = Unit
Distinct (x ∷ xs) = (mem x xs ≡ false) × Distinct xs

pub mem-append : (a : ℕ) (xs ys : List ℕ) → mem a (xs ++ ys) ≡ (mem a xs || mem a ys)
mem-append a [] ys = refl
mem-append a (x ∷ xs) ys = ground (arith, mem-append a xs ys)

pub mem-remove : (a b : ℕ) (xs : List ℕ) → mem b xs ≡ false → mem b (remove a xs) ≡ false
mem-remove a b [] h = refl
mem-remove a b (x ∷ xs) h = ground (arith, mem-remove a b xs)

pub Distinct-remove : (a : ℕ) (xs : List ℕ) → Distinct xs → Distinct (remove a xs)
Distinct-remove a [] d = d
Distinct-remove a (x ∷ xs) d = ground (arith, Distinct-remove a xs d.1, mem-remove a x xs)

abbrev pub Disjoint : List ℕ → List ℕ → Type 0
Disjoint xs ys = (a : ℕ) → mem a xs ≡ true → mem a ys ≡ false

pub Distinct-append :
    (xs ys : List ℕ) → Distinct (xs ++ ys) → Distinct xs × Distinct ys × Disjoint xs ys
Distinct-append [] ys d = (tt, d, λ a. cc)
Distinct-append (x ∷ xs) ys d =
    let rest = Distinct-append xs ys d.1 in
    (
      ground (arith, mem-append x xs ys),
      rest.1,
      λ a m. ground (arith, mem-append x xs ys, rest.2 a, ==_iff a x),
    )

pub append-Distinct :
    (xs ys : List ℕ) → Distinct xs → Distinct ys → Disjoint xs ys → Distinct (xs ++ ys)
append-Distinct [] ys dx dy apart = dy
append-Distinct (x ∷ xs) ys dx dy apart = (
  ground (arith, mem-append x xs ys, apart x),
  append-Distinct xs ys dx.1 dy (λ a m. apart a (ground arith)),
)

-- A list that holds `a` splits at its first occurrence, and `remove` leaves the two parts.
pub mem-split :
    (a : ℕ) (xs : List ℕ)
    → mem a xs ≡ true
    → (ys : List ℕ) × (zs : List ℕ) × (xs ≡ ys ++ a ∷ zs) × (remove a xs ≡ ys ++ zs)
mem-split a [] h = cc
mem-split a (x ∷ xs) h = elim (Bool-cases (a == x)) [
  | inl same ↦ ([], xs, ground arith, ground arith)
  | inr other ↦
      let (ys, zs, e, r) = mem-split a xs (ground arith) in
      (x ∷ ys, zs, ap (λ (l : List ℕ). x ∷ l) e, rw other (ap (λ (l : List ℕ). x ∷ l) r))
]

pub Disjoint-sym : (xs ys : List ℕ) → Disjoint xs ys → Disjoint ys xs
Disjoint-sym xs ys apart a m = elim (Bool-cases (mem a xs)) [
  | inl here ↦ absurd (cc (apart a here))
  | inr out ↦ out
]

pub ne_of_mem : (a x : ℕ) (xs : List ℕ) → mem a xs ≡ true → mem x xs ≡ false → a ≢ x
ne_of_mem a x xs m out e = cc (ap (λ (b : ℕ). mem b xs) e)

pub not-mem-append :
    (a : ℕ) (xs ys : List ℕ) → mem a (xs ++ ys) ≡ false → (mem a xs ≡ false) × (mem a ys ≡ false)
not-mem-append a xs ys h = ground (arith, mem-append a xs ys)

pub not-mem-cons : (a x : ℕ) (xs : List ℕ) → mem a (x ∷ xs) ≡ false → (a ≢ x) × (mem a xs ≡ false)
not-mem-cons a x xs h = ground (arith, ==_iff a x)

pub Distinct-drop :
    (xs : List ℕ) (x : ℕ) (ys : List ℕ) → Distinct (xs ++ x ∷ ys) → Distinct (xs ++ ys)
Distinct-drop xs x ys d =
    let (dx, dy, apart) = Distinct-append xs (x ∷ ys) d in
    append-Distinct xs ys dx dy.1 (λ a m. (not-mem-cons a x ys (apart a m)).1)

pub cons-not-mem : (a x : ℕ) (xs : List ℕ) → a ≢ x → mem a xs ≡ false → mem a (x ∷ xs) ≡ false
cons-not-mem a x xs ne out = ground (arith, ==_iff a x)

pub update_self {ℓ} : {A : Type ℓ} (f : ℕ → A) (a : ℕ) (v : A) → update f a v a ≡ v
update_self f a v = rw ((==_iff a a).1 refl)

pub update-ne {ℓ} : {A : Type ℓ} (f : ℕ → A) (a : ℕ) (v : A) (b : ℕ) → b ≢ a → update f a v b ≡ f b
update-ne f a v b ne = elim (Bool-cases (b == a)) [
  | inl same ↦ absurd (ne ((==_iff b a).0 same))
  | inr other ↦ rw other
]

pub mem-head : (a : ℕ) (xs : List ℕ) → mem a (a ∷ xs) ≡ true
mem-head a xs = rw ((==_iff a a).1 refl)

pub mem-tail : (a x : ℕ) (xs : List ℕ) → a ≢ x → mem a (x ∷ xs) ≡ true → mem a xs ≡ true
mem-tail a x xs ne m = ground (arith, ==_iff a x)

pub cons-mem : (a x : ℕ) (xs : List ℕ) → mem a xs ≡ true → mem a (x ∷ xs) ≡ true
cons-mem a x xs m = ground (arith, ==_iff a x)

pub mem_of_mem-remove : (a b : ℕ) (xs : List ℕ) → mem b (remove a xs) ≡ true → mem b xs ≡ true
mem_of_mem-remove a b [] h = h
mem_of_mem-remove a b (x ∷ xs) h = ground (arith, mem_of_mem-remove a b xs)

pub mem-remove_ne : (a b : ℕ) (xs : List ℕ) → b ≢ a → mem b xs ≡ true → mem b (remove a xs) ≡ true
mem-remove_ne a b [] ne h = h
mem-remove_ne a b (x ∷ xs) ne h = ground (arith, mem-remove_ne a b xs ne)

pub not-mem-remove_self : (a : ℕ) (xs : List ℕ) → Distinct xs → mem a (remove a xs) ≡ false
not-mem-remove_self a [] d = refl
not-mem-remove_self a (x ∷ xs) d = elim (ℕ_discrete a x) [
  | yes e ↦ rw ((==_iff a x).1 e) (rw e d.0)
  | no ne ↦ ground (arith, ==_iff a x, not-mem-remove_self a xs d.1)
]

pub ℕ_cases : (n : ℕ) → (n ≡ 0) ⊎ ((m : ℕ) × (n ≡ suc m))
ℕ_cases zero = inl refl
ℕ_cases (suc n) = inr (n, refl)

pub cons-injective {ℓ} :
    {A : Type ℓ} {x y : A} {xs ys : List A} → (x ∷ xs ≡ y ∷ ys) → (x ≡ y) × (xs ≡ ys)
cons-injective e = (cc e, cc e)
