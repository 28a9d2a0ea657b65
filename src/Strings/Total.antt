-- ===== src/Strings/Total.antt =====
-- Every string stands for a number in both radixes of `atoui`, as Strings/Reads describes it.
use native.Mathlib.Decide.{ℕ_discrete, dec_lt}
use oscs25_labs.Base.{
  subst, sym, ◌-◌, ℕ, ◌++◌, ◌⊎◌, ◌^◌, List, [], ◌∷◌, ◌≡◌, refl, ap, inl, inr, arith,
}
use oscs25_labs.Strings.{dec, hex, atoui}
use oscs25_labs.Strings.Reads.{
  IsDecChar, IsHexChar, Spells, OtherDec, OtherHex, NoPrefix, Reads, dec_digits, dec_other,
  hex_digits, hex_prefixed, hex_other, hex_prefixed_other, atoui-Reads,
}

IsDecChar-cases : (c : ℕ) → ((d : ℕ) × IsDecChar c d) ⊎ OtherDec c
IsDecChar-cases c = elim (dec_lt c 48) [
  | yes below ↦ inr (inl below)
  | no digit ↦ elim (dec_lt 57 c) [
    | yes above ↦ inr (inr above)
    | no within ↦ inl (c - 48, (omega arith, omega arith))
  ]
]

IsHexChar-cases : (c : ℕ) → ((d : ℕ) × IsHexChar c d) ⊎ OtherHex c
IsHexChar-cases c = elim (IsDecChar-cases c) [
  | inl (d, is) ↦ inl (d, inl is)
  | inr (inl below) ↦ inr (inl below)
  | inr (inr above) ↦ elim (dec_lt c 65) [
    | yes gap ↦ inr (inr (inl (above, gap)))
    | no upper ↦ elim (dec_lt c 71) [
      | yes letter ↦ inl (c - 55, inr (omega arith, omega arith, inl (omega arith)))
      | no not_upper ↦ elim (dec_lt c 97) [
        | yes gap ↦ inr (inr (inr (inl (omega arith, gap))))
        | no lower ↦ elim (dec_lt 102 c) [
          | yes behind ↦ inr (inr (inr (inr behind)))
          | no letter ↦ inl (c - 87, inr (omega arith, omega arith, inr (omega arith)))
        ]
      ]
    ]
  ]
]

-- A string is one of digits, or has a character that is none.
digits_or_other :
    {char : ℕ → ℕ → Type 0} {other : ℕ → Type 0}
    → ((c : ℕ) → ((d : ℕ) × char c d) ⊎ other c)
    → (str : List ℕ)
    → ((ds : List ℕ) × Spells char str ds)
      ⊎ ((xs : List ℕ) × (c : ℕ) × (ys : List ℕ) × other c × (xs ++ c ∷ ys ≡ str))
digits_or_other split [] = inl ([], tt)
digits_or_other split (c ∷ str) = elim (split c) [
  | inr other ↦ inr ([], c, str, other, refl)
  | inl (d, is) ↦ elim (digits_or_other split str) [
    | inl (ds, sp) ↦ inl (d ∷ ds, (is, sp))
    | inr (xs, x, ys, other, e) ↦ inr (c ∷ xs, x, ys, other, ap (λ (l : List ℕ). c ∷ l) e)
  ]
]

NoPrefix-cases : (str : List ℕ) → ((rest : List ℕ) × (48 ∷ 120 ∷ rest ≡ str)) ⊎ NoPrefix str
NoPrefix-cases [] = inr (λ rest e. cc e)
NoPrefix-cases (c ∷ []) = inr (λ rest e. cc e)
NoPrefix-cases (c ∷ d ∷ str) = elim (ℕ_discrete c 48) [
  | no ne ↦ inr (λ rest e. ne (cc e))
  | yes zero_char ↦ elim (ℕ_discrete d 120) [
    | no ne ↦ inr (λ rest e. ne (cc e))
    | yes x_char ↦ inl (str, rw (zero_char, x_char) refl)
  ]
]

dec_number : (str : List ℕ) → (n : ℕ) × Reads dec str n
dec_number str = elim (digits_or_other IsDecChar-cases str) [
  | inl (ds, sp) ↦ (_, dec_digits str ds sp)
  | inr (xs, c, ys, other, e) ↦
      (_, subst (λ (l : List ℕ). Reads dec l (2 ^ 32 - 1)) e (dec_other xs c ys other))
]

hex_number : (str : List ℕ) → (n : ℕ) × Reads hex str n
hex_number str = elim (NoPrefix-cases str) [
  | inl (rest, prefix) ↦
      subst (λ (l : List ℕ). (n : ℕ) × Reads hex l n) prefix
        (elim (digits_or_other IsHexChar-cases rest) [
          | inl (ds, sp) ↦ (_, hex_prefixed rest ds sp)
          | inr (xs, c, ys, other, e) ↦ (
            2 ^ 32 - 1,
            subst (λ (l : List ℕ). Reads hex (48 ∷ 120 ∷ l) (2 ^ 32 - 1)) e
                (hex_prefixed_other xs c ys other),
          )
        ])
  | inr np ↦ elim (digits_or_other IsHexChar-cases str) [
    | inl (ds, sp) ↦ (_, hex_digits str ds sp)
    | inr (xs, c, ys, other, e) ↦ (
      2 ^ 32 - 1,
      subst (λ (l : List ℕ). Reads hex l (2 ^ 32 - 1)) e
          (hex_other xs c ys other (subst NoPrefix (sym e) np)),
    )
  ]
]

-- The result of atoui is the number that the string stands for, whatever the string is.
Reads-atoui : (str : List ℕ) → Reads dec str (atoui str dec) × Reads hex str (atoui str hex)
Reads-atoui str =
    let (n, is_dec) = dec_number str in
    let (m, is_hex) = hex_number str in
    (
      subst (Reads dec str) (sym (atoui-Reads is_dec)) is_dec,
      subst (Reads hex str) (sym (atoui-Reads is_hex)) is_hex,
    )
