-- ===== src/Strings/Tokens.antt =====
-- Comparison of strings, and the tokens that `strtok` finds.
use oscs25_labs.Base.{
  ℕ, Bool, true, false, List, [], ◌∷◌, ◌++◌, ◌≡◌, refl, ap, ap₂, ◌==◌, ==_iff, Bool-cases, inl, inr,
  arith, Option, some, ◌↔◌, ◌⊎◌, subst,
}
use oscs25_labs.Strings.{strcmp, strchr, found, skip_terminators, take_token, strtok}

strcmp_sound : (str1 str2 : List ℕ) → strcmp str1 str2 ≡ 1 → str1 ≡ str2
unfolding strcmp
strcmp_sound [] [] e = refl
strcmp_sound [] (b ∷ str2) e = absurd (omega arith)
strcmp_sound (a ∷ str1) [] e = absurd (omega arith)
strcmp_sound (a ∷ str1) (b ∷ str2) e = elim (Bool-cases (a == b)) [
  | inl same ↦
      ap₂ (λ (x : ℕ) (l : List ℕ). x ∷ l) ((==_iff a b).0 same)
        (strcmp_sound str1 str2 (rw same at e))
  | inr differs ↦ let zero_is_one : ◌≡◌ {A = ℕ} 0 1 = rw differs at e in absurd (omega arith)
]

strcmp_self : (str : List ℕ) → strcmp str str ≡ 1
unfolding strcmp
strcmp_self [] = refl
strcmp_self (a ∷ str) = rw ((==_iff a a).1 refl) (strcmp_self str)

strcmp_bit : (str1 str2 : List ℕ) → (strcmp str1 str2 ≡ 0) ⊎ (strcmp str1 str2 ≡ 1)
unfolding strcmp
strcmp_bit [] [] = inr refl
strcmp_bit [] (b ∷ str2) = inl refl
strcmp_bit (a ∷ str1) [] = inl refl
strcmp_bit (a ∷ str1) (b ∷ str2) = elim (Bool-cases (a == b)) [
  | inl same ↦ rw same (strcmp_bit str1 str2)
  | inr differs ↦ rw differs (inl refl)
]

-- The result is 0 or 1, and it is 1 for equal strings alone, the reverse of the C library.
strcmp_equal :
    (str1 str2 : List ℕ)
    → ((strcmp str1 str2 ≡ 0) ⊎ (strcmp str1 str2 ≡ 1)) × ((strcmp str1 str2 ≡ 1) ↔ (str1 ≡ str2))
strcmp_equal str1 str2 = (
  strcmp_bit str1 str2,
  (strcmp_sound str1 str2, λ e. subst (λ (l : List ℕ). strcmp str1 l ≡ 1) e (strcmp_self str1)),
)

-- Whether a character ends a token.
abbrev pub ends : List ℕ → ℕ → Bool
ends terminators a = found (strchr terminators a)

abbrev pub AllEnd : List ℕ → List ℕ → Type 0
AllEnd terminators [] = Unit
AllEnd terminators (a ∷ str) = (ends terminators a ≡ true) × AllEnd terminators str

abbrev pub NoneEnds : List ℕ → List ℕ → Type 0
NoneEnds terminators [] = Unit
NoneEnds terminators (a ∷ str) = (ends terminators a ≡ false) × NoneEnds terminators str

skip_lead :
    (ts lead : List ℕ) (a : ℕ) (str : List ℕ)
    → AllEnd ts lead
    → ends ts a ≡ false
    → skip_terminators ts (lead ++ a ∷ str) ≡ a ∷ str
unfolding skip_terminators
skip_lead ts [] a str all stop = rw stop refl
skip_lead ts (x ∷ lead) a str all stop = rw all.0 (skip_lead ts lead a str all.1 stop)

take_word :
    (ts word : List ℕ) (d : ℕ) (rest : List ℕ)
    → NoneEnds ts word
    → ends ts d ≡ true
    → take_token ts (word ++ d ∷ rest) ≡ (word, rest)
unfolding take_token
take_word ts [] d rest none_ends stop = rw stop refl
take_word ts (a ∷ word) d rest none_ends stop =
    rw none_ends.0
      (ap (λ (r : List ℕ × List ℕ). (a ∷ r.0, r.1)) (take_word ts word d rest none_ends.1 stop))

take_last : (ts word : List ℕ) → NoneEnds ts word → take_token ts word ≡ (word, [])
unfolding take_token
take_last ts [] none_ends = refl
take_last ts (a ∷ word) none_ends =
    rw none_ends.0 (ap (λ (r : List ℕ × List ℕ). (a ∷ r.0, r.1)) (take_last ts word none_ends.1))

-- Behind any terminators, a word that one terminator ends is the token, and the next call goes on
-- behind that terminator; a word at the end of the string is the token, and no string is left.
pub strtok_word :
    (ts lead : List ℕ) (a : ℕ) (word : List ℕ) (d : ℕ) (rest : List ℕ) (saved : Option (List ℕ))
    → AllEnd ts lead
    → NoneEnds ts (a ∷ word)
    → ends ts d ≡ true
    → (strtok (some (lead ++ a ∷ (word ++ d ∷ rest))) ts saved ≡ (some (a ∷ word), some rest))
      × (strtok (some (lead ++ a ∷ word)) ts saved ≡ (some (a ∷ word), some []))
unfolding strtok
strtok_word ts lead a word d rest saved all none_ends stop = (
  rw
      (
        skip_lead ts lead a (word ++ d ∷ rest) all none_ends.0,
        take_word ts (a ∷ word) d rest none_ends stop,
      )
      refl,
  rw (skip_lead ts lead a word all none_ends.0, take_last ts (a ∷ word) none_ends) refl,
)
