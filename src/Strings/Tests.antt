-- ===== src/Strings/Tests.antt =====
-- Strings on small inputs.
use oscs25_labs.Base.{
  inl, inr, ℕ, ◌==◌, ◌<◌, ◌≢◌, ◌+◌, arith, ◌>>=◌, [], ◌∷◌, ◌≡◌, refl, some, if◌then◌else◌,
}
use oscs25_labs.Strings.{
  atoui, hex, is_digit, is_hex_digit, ctoi, atoui_loop, skip_prefix, to_lower,
}
use oscs25_labs.Strings.Format.{
  itoa, carrtoi, strrev, find_end, end_digits, digit_loop, hex_digit, carr_loop, carr_digit,
  swap_loop,
}
use oscs25_labs.Strings.Reverse.{Reversed, strrev-Reversed}
use oscs25_labs.Strings.Reads.{hex_prefixed, atoui-Reads}

hex_runs : atoui (48 ∷ 120 ∷ 49 ∷ 70 ∷ []) hex ≡ 31
unfolding atoui skip_prefix atoui_loop is_hex_digit is_digit ctoi to_lower
hex_runs = refl

-- 0x1F
atoui-Reads_example : atoui (48 ∷ 120 ∷ 49 ∷ 70 ∷ []) hex ≡ 31
atoui-Reads_example = atoui-Reads (
    hex_prefixed (49 ∷ 70 ∷ []) (1 ∷ 15 ∷ [])
      (inl (omega arith, refl), (inr (omega arith, omega arith, inl refl), tt)))

-- A number is written and read back.
itoa_runs : (itoa 0x1A2F (λ _. 7) hex >>= λ str. carrtoi str 6 hex) ≡ some 0x1A2F
unfolding itoa carrtoi strrev find_end end_digits digit_loop hex_digit carr_loop carr_digit
    swap_loop
itoa_runs = refl

-- The characters "abc" from the index 2 on.
abbrev abc : ℕ → ℕ
abc i = if i == 2 then 97 else if i == 3 then 98 else if i == 4 then 99 else 0

abc_text : (i : ℕ) → i < 3 → abc (2 + i) ≢ 0
abc_text i lo = ground arith

strrev-Reversed_example : Reversed 3 2 abc (strrev 33 2 abc)
strrev-Reversed_example = strrev-Reversed 33 3 2 abc (omega arith) abc_text refl
