-- ===== src/Template/Links/Seg.antt =====
-- Segments of doubly linked nodes: the part of the store that a list of nodes occupies.
use oscs25_labs.Base.{
  ℕ, none, some, ◌≡◌, refl, ◌∙◌, ◌≢◌, true, false, List, [], ◌∷◌, ◌++◌, arith, ==_iff, first_or,
  last_or, mem, Distinct,
}
use oscs25_labs.Template.Links.{Ptr, Links, set_next, set_prev}

-- From a node with predecessor `p`, the nodes `xs` lead to `n`.
abbrev pub Seg : Links → Ptr → List ℕ → Ptr → Type 0
Seg s p [] n = Unit
Seg s p (x ∷ xs) n = (s.prev x ≡ p) × (s.next x ≡ first_or xs n) × Seg s (some x) xs n

-- The two stores hold the same links at `a`.
pub record SameAt (a : ℕ) (s t : Links) : Type 0 where
  pub prev : t.prev a ≡ s.prev a
  pub next : t.next a ≡ s.next a

pub SameAt-trans : {a : ℕ} {s t u : Links} → SameAt a s t → SameAt a t u → SameAt a s u
SameAt-trans h k = record { prev = k.prev ∙ h.prev; next = k.next ∙ h.next }

pub Seg-frame :
    {s t : Links} (p n : Ptr) (xs : List ℕ)
    → ((a : ℕ) → mem a xs ≡ true → SameAt a s t)
    → Seg s p xs n
    → Seg t p xs n
Seg-frame p n [] same h = tt
Seg-frame p n (x ∷ xs) same h = (
  (same x (ground arith)).prev ∙ h.0,
  (same x (ground arith)).next ∙ h.1,
  Seg-frame (some x) n xs (λ a m. same a (ground arith)) h.2,
)

pub Seg-split :
    (s : Links) (p n : Ptr) (xs ys : List ℕ)
    → Seg s p (xs ++ ys) n
    → Seg s p xs (first_or ys n) × Seg s (last_or p xs) ys n
Seg-split s p n [] ys h = (tt, h)
Seg-split s p n (x ∷ []) ys h = ((h.0, h.1, tt), h.2)
Seg-split s p n (x ∷ y ∷ xs) ys h =
    let rest = Seg-split s (some x) n (y ∷ xs) ys h.2 in ((h.0, h.1, rest.0), rest.1)

pub Seg-join :
    (s : Links) (p n : Ptr) (xs ys : List ℕ)
    → Seg s p xs (first_or ys n)
    → Seg s (last_or p xs) ys n
    → Seg s p (xs ++ ys) n
Seg-join s p n [] ys h k = k
Seg-join s p n (x ∷ []) ys h k = (h.0, h.1, k)
Seg-join s p n (x ∷ y ∷ xs) ys h k = (h.0, h.1, Seg-join s (some x) n (y ∷ xs) ys h.2 k)

-- The last node of a list that is not empty is one of it.
pub last_or-cons :
    (x : ℕ) (xs : List ℕ) → (z : ℕ) × (last_or (some x) xs ≡ some z) × (mem z (x ∷ xs) ≡ true)
last_or-cons x [] = (x, refl, ground arith)
last_or-cons x (y ∷ ys) = let (z, e, m) = last_or-cons y ys in (z, e, ground arith)

-- A write of `next` at `p` changes no other link.
pub set_next_other : (p v : Ptr) (s : Links) (a : ℕ) → p ≢ some a → SameAt a s (set_next p v s)
unfolding set_next
set_next_other none v s a h = record { prev = refl; next = refl }
set_next_other (some b) v s a h = record { prev = refl; next = ground arith }

pub set_prev_other : (p v : Ptr) (s : Links) (a : ℕ) → p ≢ some a → SameAt a s (set_prev p v s)
unfolding set_prev
set_prev_other none v s a h = record { prev = refl; next = refl }
set_prev_other (some b) v s a h = record { prev = ground arith; next = refl }

last-ne : (x y : ℕ) (ys : List ℕ) → mem x (y ∷ ys) ≡ false → last_or (some y) ys ≢ some x
last-ne x y ys out e = let (z, e', m) = last_or-cons y ys in ground (arith, ==_iff z x)

-- Relinking the last node to another successor.
pub Seg-set_next_last :
    (s : Links) (p n m : Ptr) (xs : List ℕ)
    → Distinct xs
    → Seg s p xs n
    → Seg (set_next (last_or p xs) m s) p xs m
unfolding set_next
Seg-set_next_last s p n m [] d h = tt
Seg-set_next_last s p n m (x ∷ []) d h = (h.0, ground arith, tt)
Seg-set_next_last s p n m (x ∷ y ∷ ys) d h =
    let keep = set_next_other (last_or (some y) ys) m s x (last-ne x y ys d.0) in
    (keep.prev ∙ h.0, keep.next ∙ h.1, Seg-set_next_last s (some x) n m (y ∷ ys) d.1 h.2)

-- Relinking the first node to another predecessor.
pub Seg-set_prev_first :
    (s : Links) (p q n : Ptr) (xs : List ℕ)
    → Distinct xs
    → Seg s p xs n
    → Seg (set_prev (first_or xs none) q s) q xs n
unfolding set_prev
Seg-set_prev_first s p q n [] d h = tt
Seg-set_prev_first s p q n (x ∷ xs) d h = (
  ground arith,
  h.1,
  Seg-frame (some x) n xs (λ a m. record { prev = ground (arith, ==_iff a x); next = refl }) h.2,
)
