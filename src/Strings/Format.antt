-- ===== src/Strings/Format.antt =====
-- lib/str_utils.c: the functions that work on a buffer, `itoa`, `strrev` and `carrtoi`. A buffer is a
-- function from an index to a character.
use oscs25_labs.Base.{
  ℕ, zero, suc, ◌+◌, ◌-◌, ◌*◌, ◌/◌, ◌%◌, ◌^◌, Bool, true, ◌&&◌, Option, none, some, ltb, leb, ◌==◌,
  ◌>>=◌, if◌then◌else◌, update,
}
use oscs25_labs.Strings.{Radix, bin, dec, hex}

-- The index of the NUL from `size` on; `none` if there is none among `n` characters.
unfoldable pub find_end : (n size base : ℕ) → (ℕ → ℕ) → Option ℕ
find_end zero size base str = none
find_end (suc n) size base str =
    let rest = find_end n (size + 1) base str in if str (base + size) == 0 then some size else rest

-- The characters at `head` and `tail` change places until the two indices meet.
unfoldable pub swap_loop : (n head tail base : ℕ) → (ℕ → ℕ) → ℕ → ℕ
swap_loop zero head tail base str = str
swap_loop (suc n) head tail base str =
    let swapped =
      update (update str (base + head) (str (base + tail))) (base + tail) (str (base + head)) in
    let rest = swap_loop n (head + 1) (tail - 1) base swapped in if ltb head tail then rest else str

-- `strrev(str + base)`; an empty string has the last index -1, for which the loop does not run.
unfoldable pub strrev : (n base : ℕ) → (ℕ → ℕ) → Option (ℕ → ℕ)
strrev n base str = do
  size ← find_end n 0 base str
  some (if size == 0 then str else swap_loop size 0 (size - 1) base str)

unfoldable pub hex_digit : ℕ → ℕ
hex_digit digit = if ltb digit 10 then 48 + digit else 97 + digit - 10

-- The digits of `val`, the lowest first, from `idx` on, and the index behind them. A number of 32 bits
-- has at most 32 of them.
unfoldable pub digit_loop : (n base : ℕ) → (to_char : ℕ → ℕ) → (val idx : ℕ) → (ℕ → ℕ) → ℕ × (ℕ → ℕ)
digit_loop zero base to_char val idx str = (idx, str)
digit_loop (suc n) base to_char val idx str =
    let str' = update str idx (to_char (val % base)) in
    let rest = digit_loop n base to_char (val / base) (idx + 1) str' in
    if val / base == 0 then (idx + 1, str') else rest

unfoldable pub end_digits : ℕ × (ℕ → ℕ) → ℕ → ℕ
end_digits (idx, str) = update str idx 0

unfoldable pub itoa : (val : ℕ) → (ℕ → ℕ) → Radix → Option (ℕ → ℕ)
itoa val str hex =
    strrev 33 2 (end_digits (digit_loop 32 16 hex_digit val 2 (update (update str 0 48) 1 120)))
itoa val str dec = strrev 33 0 (end_digits (digit_loop 32 10 (λ d. 48 + d) val 0 (update str 0 48)))
itoa val str bin = some (update str 0 0)

-- The digit of one character for `carrtoi`; the letters are those between A and f, by 32.
unfoldable pub carr_digit : Radix → ℕ → Option ℕ
carr_digit rad c =
    let offset = (c - 65) % 32 in
    let letter = if ltb 5 offset then none else some (10 + offset) in
    if leb c 57 && leb 48 c then some (c - 48) else other rad (leb 65 c && leb c 102) letter
  where
    other : Radix → Bool → Option ℕ → Option ℕ
    other hex true letter = letter
    other _ _ letter = none

-- The number is an `int`, whose overflow C leaves undefined; the model leaves it unbounded. `none`
-- is the result -1.
unfoldable pub carr_loop : (n i base num start : ℕ) → Radix → (ℕ → ℕ) → Option ℕ
carr_loop zero i base num start rad str = some num
carr_loop (suc n) i base num start rad str = do
  digit ← carr_digit rad (str (start + i))
  carr_loop n (i + 1) base (num * base + digit) start rad str

-- A hexadecimal string begins with two characters that are skipped; `size -= 2` wraps.
unfoldable pub carrtoi : (str : ℕ → ℕ) → (size : ℕ) → Radix → Option ℕ
carrtoi str size hex = carr_loop ((size + 2 ^ 32 - 2) % 2 ^ 32) 0 16 0 2 hex str
carrtoi str size dec = carr_loop size 0 10 0 0 dec str
carrtoi str size bin = carr_loop size 0 10 0 0 bin str
