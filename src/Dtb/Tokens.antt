-- ===== src/Dtb/Tokens.antt =====
-- The device tree as the list of its tokens, and what the parser does with it.
use oscs25_labs.Base.{
  ℕ, zero, suc, ◌+◌, ◌*◌, ◌/◌, ◌≤◌, ◌<◌, ◌≡◌, refl, true, false, some, List, [], ◌∷◌, ltb, ◌==◌,
  ◌>>=◌, length, arith,
}
use oscs25_labs.Dtb.{
  fdt_begin_node, fdt_end_node, fdt_prop, fdt_nop, fdt_end, off_dt_struct_offset,
  off_dt_strings_offset, big_word, add_padding, size_at, skip_nops, Callback, parse_step,
  parse_loop, dtb_parser,
}

pub data Token : Type 0 where
  begin_node : (size : ℕ) → Token
  end_node : Token
  nop : Token
  prop : (len nameoff : ℕ) → Token

abbrev pub number : Token → ℕ
number (begin_node size) = fdt_begin_node
number end_node = fdt_end_node
number nop = fdt_nop
number (prop len nameoff) = fdt_prop

abbrev pub round_up : ℕ → ℕ
round_up x = (x + 3) / 4 * 4

-- The address behind a token whose number is in front of `addr`.
abbrev pub behind : (addr : ℕ) → Token → ℕ
behind addr (begin_node size) = round_up (addr + size)
behind addr end_node = addr
behind addr nop = addr
behind addr (prop len nameoff) = round_up (addr + 8 + len)

-- What stands behind the number: for a node its name, of `size` bytes with the NUL, and for a
-- property its size and the place of its name.
abbrev pub HasBody : (chars : ℕ) → (memory : ℕ → ℕ) → (addr : ℕ) → Token → Type 0
HasBody chars memory addr (begin_node size) = size_at chars addr memory ≡ some size
HasBody chars memory addr end_node = Unit
HasBody chars memory addr nop = Unit
HasBody chars memory addr (prop len nameoff) =
    (big_word addr memory ≡ len) × (big_word (addr + 4) memory ≡ nameoff)

-- The tokens from an address on, and the end behind them.
abbrev pub HasTokens : (chars : ℕ) → (memory : ℕ → ℕ) → (addr : ℕ) → List Token → Type 0
HasTokens chars memory addr [] = big_word addr memory ≡ fdt_end
HasTokens chars memory addr (t ∷ ts) =
    (big_word addr memory ≡ number t)
    × HasBody chars memory (addr + 4) t
    × HasTokens chars memory (behind (addr + 4) t) ts

-- The callback is called for each property, in their order, with its name and its data.
abbrev pub called {ℓ} : {A : Type ℓ} → Callback A → (string_block addr : ℕ) → List Token → A → A
called func string_block addr [] a = a
called func string_block addr (prop len nameoff ∷ ts) a =
    called func string_block (behind (addr + 4) (prop len nameoff)) ts
      (func fdt_prop (string_block + nameoff) (addr + 4 + 8) len a)
called func string_block addr (begin_node size ∷ ts) a =
    called func string_block (behind (addr + 4) (begin_node size)) ts a
called func string_block addr (end_node ∷ ts) a = called func string_block (addr + 4) ts a
called func string_block addr (nop ∷ ts) a = called func string_block (addr + 4) ts a

add_padding_lem : (x : ℕ) → add_padding x 4 ≡ round_up x
unfolding add_padding
add_padding_lem x = ground arith

parse_loop_lem {ℓ} :
    {A : Type ℓ} (ts : List Token) (n chars : ℕ) (func : Callback A) (string_block addr : ℕ)
    (memory : ℕ → ℕ) (a : A)
    → length ts < n
    → HasTokens chars memory addr ts
    → parse_loop n chars func string_block (big_word addr memory) (addr + 4) memory a
      ≡ some (called func string_block addr ts a)
unfolding parse_loop parse_step
parse_loop_lem ts zero chars func string_block addr memory a fuel h = absurd (omega arith)
parse_loop_lem [] (suc n) chars func string_block addr memory a fuel h = rw h refl
parse_loop_lem (begin_node size ∷ ts) (suc n) chars func string_block addr memory a fuel
      (token, named, rest) =
    rw (token, named, add_padding_lem (addr + 4 + size))
      (parse_loop_lem ts n chars func string_block (behind (addr + 4) (begin_node size)) memory a
        (omega arith) rest)
parse_loop_lem (end_node ∷ ts) (suc n) chars func string_block addr memory a fuel
      (token, body, rest) =
    rw token (parse_loop_lem ts n chars func string_block (addr + 4) memory a (omega arith) rest)
parse_loop_lem (nop ∷ ts) (suc n) chars func string_block addr memory a fuel (token, body, rest) =
    rw token (parse_loop_lem ts n chars func string_block (addr + 4) memory a (omega arith) rest)
parse_loop_lem (prop len nameoff ∷ ts) (suc n) chars func string_block addr memory a fuel
      (token, (size, place), rest) =
    rw (token, size, place, add_padding_lem (addr + 4 + 8 + len))
      (parse_loop_lem ts n chars func string_block (behind (addr + 4) (prop len nameoff)) memory
        (func fdt_prop (string_block + nameoff) (addr + 4 + 8) len a) (omega arith) rest)

-- The parser begins behind the nops in front.
skip_parse {ℓ} :
    {A : Type ℓ} (ts : List Token) (k n chars : ℕ) (func : Callback A) (string_block addr : ℕ)
    (memory : ℕ → ℕ) (a : A)
    → length ts < k
    → length ts < n
    → HasTokens chars memory addr ts
    → (skip_nops k addr memory >>= (λ t. parse_loop n chars func string_block t.0 t.1 memory a))
      ≡ some (called func string_block addr ts a)
unfolding skip_nops
skip_parse ts zero n chars func string_block addr memory a room fuel h = absurd (omega arith)
skip_parse [] (suc k) n chars func string_block addr memory a room fuel h =
    let first : (big_word addr memory == fdt_nop) ≡ false = ground (arith, h) in
    rw first (parse_loop_lem [] n chars func string_block addr memory a fuel h)
skip_parse (begin_node size ∷ ts) (suc k) n chars func string_block addr memory a room fuel h =
    let first : (big_word addr memory == fdt_nop) ≡ false = ground (arith, h.0) in
    rw first (parse_loop_lem (begin_node size ∷ ts) n chars func string_block addr memory a fuel h)
skip_parse (end_node ∷ ts) (suc k) n chars func string_block addr memory a room fuel h =
    let first : (big_word addr memory == fdt_nop) ≡ false = ground (arith, h.0) in
    rw first (parse_loop_lem (end_node ∷ ts) n chars func string_block addr memory a fuel h)
skip_parse (nop ∷ ts) (suc k) n chars func string_block addr memory a room fuel
      (token, body, rest) =
    let first : (big_word addr memory == fdt_nop) ≡ true = ground (arith, token) in
    rw first (
      skip_parse ts k n chars func string_block (addr + 4) memory a (omega arith) (omega arith)
        rest)
skip_parse (prop len nameoff ∷ ts) (suc k) n chars func string_block addr memory a room fuel h =
    let first : (big_word addr memory == fdt_nop) ≡ false = ground (arith, h.0) in
    rw first (parse_loop_lem (prop len nameoff ∷ ts) n chars func string_block addr memory a fuel h)

-- A tree of tokens is parsed to its end, whatever the callback does: the callback is called once for
-- each property, in their order, with the name in the block of strings, the data and their size.
pub dtb_parser-called {ℓ} :
    {A : Type ℓ} (ts : List Token) (n chars : ℕ) (func : Callback A) (dtb_addr : ℕ) (memory : ℕ → ℕ)
    (a : A)
    → 10 ≤ dtb_addr
    → length ts < n
    → HasTokens chars memory (dtb_addr + big_word (dtb_addr + off_dt_struct_offset) memory) ts
    → dtb_parser n chars func dtb_addr memory a
      ≡ some (
        0,
        called func
            (dtb_addr + big_word (dtb_addr + off_dt_strings_offset) memory)
            (dtb_addr + big_word (dtb_addr + off_dt_struct_offset) memory)
            ts
            a,
      )
unfolding dtb_parser
dtb_parser-called ts n chars func dtb_addr memory a high fuel h =
    let valid : ltb dtb_addr 10 ≡ false = ground arith in
    let string_block = dtb_addr + big_word (dtb_addr + off_dt_strings_offset) memory in
    let struct_block = dtb_addr + big_word (dtb_addr + off_dt_struct_offset) memory in
    rw (valid, skip_parse ts n n chars func string_block struct_block memory a fuel fuel h) refl
