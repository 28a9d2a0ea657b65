-- ===== src/Strings.antt =====
-- lib/str_utils.c: characters, numbers in strings, comparison and tokens. A string is the list of
-- its characters before the NUL; `char` is unsigned, as on AArch64; `none` is a `NULL` result.
pub mod Format
pub mod Numbers
pub mod Reads
pub mod Reverse
pub mod Tokens
mod Total
mod Tests
use oscs25_labs.Base.{
  ℕ, zero, suc, ◌+◌, ◌-◌, ◌*◌, ◌%◌, ◌^◌, Bool, true, false, not, ◌&&◌, ◌||◌, Option, none, some,
  List, [], ◌∷◌, ◌++◌, ltb, leb, ◌==◌, if◌then◌else◌, length,
}

pub data Radix : Type 0 where
  bin : Radix
  dec : Radix
  hex : Radix

-- `make_str` fills the buffer it is given.
unfoldable pub make_str : (c : ℕ) → (len : ℕ) → List ℕ
make_str c zero = []
make_str c (suc len) = c ∷ make_str c len

unfoldable pub get_size : List ℕ → ℕ
get_size [] = 1
get_size (_ ∷ str) = (get_size str + 1) % 2 ^ 32

unfoldable pub is_digit : ℕ → Bool
is_digit c = leb c 57 && leb 48 c

unfoldable pub to_lower : ℕ → ℕ
to_lower c = if leb 65 c && leb c 90 then 97 + (c - 65) else c

unfoldable pub is_hex_digit : ℕ → Bool
is_hex_digit c = is_digit (to_lower c) || (leb 97 (to_lower c) && leb (to_lower c) 102)

-- The result -1 of an `uint32_t`.
abbrev pub minus_one : ℕ
minus_one = 2 ^ 32 - 1

unfoldable pub ctoi : ℕ → ℕ
ctoi c = if is_digit c then c - 48 else if is_hex_digit c then to_lower c - 97 + 10 else minus_one

-- The loop of `atoui` for one radix: the test for its digits, and its base.
unfoldable pub atoui_loop : (ℕ → Bool) → (base : ℕ) → (num : ℕ) → List ℕ → ℕ
atoui_loop accepts base num [] = num
atoui_loop accepts base num (c ∷ str) =
    let rest = atoui_loop accepts base ((num * base % 2 ^ 32 + ctoi c) % 2 ^ 32) str in
    if accepts c then rest else minus_one

unfoldable pub skip_prefix : List ℕ → List ℕ
skip_prefix [] = []
skip_prefix (c ∷ []) = c ∷ []
skip_prefix (c ∷ d ∷ str) = if (c == 48) && (d == 120) then str else c ∷ d ∷ str

unfoldable pub atoui : List ℕ → Radix → ℕ
atoui str dec = atoui_loop is_digit 10 0 str
atoui str hex = atoui_loop is_hex_digit 16 0 (skip_prefix str)
atoui str bin = minus_one

-- `atoi` computes in `int`; a number above `2 ^ 31 - 1` overflows, which C leaves undefined and the
-- model leaves unbounded. `none` is the result -1.
unfoldable pub atoi_loop : ℕ → List ℕ → Option ℕ
atoi_loop num [] = some num
atoi_loop num (c ∷ str) =
    let rest = atoi_loop (num * 10 + (c - 48)) str in if ltb 57 c || ltb c 48 then none else rest

unfoldable pub atoi : List ℕ → Radix → Option ℕ
atoi str dec = atoi_loop 0 str
atoi str hex = none
atoi str bin = none

unfoldable pub strcmp : List ℕ → List ℕ → ℕ
strcmp [] [] = 1
strcmp [] (_ ∷ _) = 0
strcmp (_ ∷ _) [] = 0
strcmp (a ∷ str1) (b ∷ str2) = let rest = strcmp str1 str2 in if a == b then rest else 0

-- The rest of the string from the first `c` on.
unfoldable pub strchr : List ℕ → ℕ → Option (List ℕ)
strchr [] c = none
strchr (a ∷ str) c = let rest = strchr str c in if a == c then some (a ∷ str) else rest

abbrev pub found : Option (List ℕ) → Bool
found none = false
found (some _) = true

unfoldable pub skip_terminators : List ℕ → List ℕ → List ℕ
skip_terminators terminators [] = []
skip_terminators terminators (a ∷ target) =
    let rest = skip_terminators terminators target in
    if found (strchr terminators a) then rest else a ∷ target

-- The token, and the target behind the terminator that ends it.
unfoldable pub take_token : List ℕ → List ℕ → List ℕ × List ℕ
take_token terminators [] = ([], [])
take_token terminators (a ∷ target) =
    let (tok, next) = take_token terminators target in
    if found (strchr terminators a) then ([], target) else (a ∷ tok, next)

-- `saved` is the static `target`; the result is the token and the new `target`.
unfoldable pub strtok :
    Option (List ℕ) → List ℕ → (saved : Option (List ℕ)) → Option (List ℕ) × Option (List ℕ)
strtok (some str) terminators saved =
    let (tok, next) = take_token terminators (skip_terminators terminators str) in
    (some tok, some next)
strtok none terminators none = (none, none)
strtok none terminators (some []) = (none, some [])
strtok none terminators (some (a ∷ str)) =
    let (tok, next) = take_token terminators (skip_terminators terminators (a ∷ str)) in
    (some tok, some next)
