-- ===== src/Dtb.antt =====
-- lib/devicetree/dtb.c: the walk over the tokens of the device tree. Memory is a function from an
-- address to a byte; a callback acts on a state of its own.
pub mod Tokens
mod Tests
use oscs25_labs.Base.{
  ℕ, zero, suc, ◌+◌, ◌-◌, ◌*◌, ◌%◌, ◌^◌, Bool, true, false, ◌&&◌, Option, none, some, List, ltb,
  ◌==◌, ◌>>=◌, if◌then◌else◌,
}
use oscs25_labs.Strings.{strcmp}
use oscs25_labs.Words.{to_le_u32}
use oscs25_labs.Words.Access.{word_at}

abbrev pub fdt_begin_node : ℕ
fdt_begin_node = 1

abbrev pub fdt_end_node : ℕ
fdt_end_node = 2

abbrev pub fdt_prop : ℕ
fdt_prop = 3

abbrev pub fdt_nop : ℕ
fdt_nop = 4

abbrev pub fdt_end : ℕ
fdt_end = 9

abbrev pub dtb_block_align : ℕ
dtb_block_align = 4

-- The offsets of `totalsize`, `off_dt_struct` and `off_dt_strings` in `fdt_header`.
abbrev pub totalsize_offset : ℕ
totalsize_offset = 4

abbrev pub off_dt_struct_offset : ℕ
off_dt_struct_offset = 8

abbrev pub off_dt_strings_offset : ℕ
off_dt_strings_offset = 12

-- A word of the tree, whose bytes are in the order of the network.
unfoldable pub big_word : (addr : ℕ) → (ℕ → ℕ) → ℕ
big_word addr memory = to_le_u32 (word_at 4 addr memory)

unfoldable pub add_padding : (addr padding : ℕ) → ℕ
add_padding addr padding =
    let offset = addr % padding in if offset == 0 then addr else addr + (padding - offset)

-- The size of a string in memory, its NUL included; `none` is a lack of fuel.
unfoldable pub size_at : ℕ → (addr : ℕ) → (ℕ → ℕ) → Option ℕ
size_at zero addr memory = none
size_at (suc n) addr memory =
    let rest = size_at n (addr + 1) memory >>= (λ size. some (size + 1)) in
    if memory addr == 0 then some 1 else rest

-- The new `dtb_size`; an address that is `NULL` leaves it.
unfoldable pub init_dtb : (dtb_addr dtb_size : ℕ) → (ℕ → ℕ) → ℕ
init_dtb dtb_addr dtb_size memory =
    if dtb_addr == 0 then dtb_size else big_word (dtb_addr + totalsize_offset) memory

-- The first token that is not a nop, and the address behind it.
unfoldable pub skip_nops : ℕ → (read_head : ℕ) → (ℕ → ℕ) → Option (ℕ × ℕ)
skip_nops zero read_head memory = none
skip_nops (suc n) read_head memory =
    let rest = skip_nops n (read_head + 4) memory in
    if big_word read_head memory == fdt_nop
    then rest
    else some (big_word read_head memory, read_head + 4)

-- The callback gets the token, the address of the name, that of the data, and the size of the data.
abbrev pub Callback {ℓ} : Type ℓ → Type ℓ
Callback A = (token name content len : ℕ) → A → A

-- One round of the loop for a token that is not the end: the new head and the state of the callback.
-- `chars` bounds the size of a name.
unfoldable pub parse_step {ℓ} :
    {A : Type ℓ}
    → (chars : ℕ) → Callback A
    → (string_block token read_head : ℕ) → (ℕ → ℕ)
    → A
    → Option (ℕ × A)
parse_step chars func string_block token read_head memory a =
    let len = big_word read_head memory in
    let name = string_block + big_word (read_head + 4) memory in
    let property =
      some (
        add_padding (read_head + 8 + len) dtb_block_align,
        func token name (read_head + 8) len a,
      ) in
    let node =
      size_at chars read_head memory
      >>= (λ size. some (add_padding (read_head + size) dtb_block_align, a)) in
    if token == fdt_begin_node
    then node
    else if token == fdt_prop
    then property
    else some (read_head, a)

unfoldable pub parse_loop {ℓ} :
    {A : Type ℓ}
    → (n chars : ℕ) → Callback A
    → (string_block token read_head : ℕ) → (ℕ → ℕ)
    → A
    → Option A
parse_loop zero chars func string_block token read_head memory a = none
parse_loop (suc n) chars func string_block token read_head memory a =
    let on =
      parse_step chars func string_block token read_head memory a
      >>= (λ r. parse_loop n chars func string_block (big_word r.0 memory) (r.0 + 4) memory r.1) in
    if token == fdt_end then some a else on

-- The result of the code, and the state of the callback. `n` bounds the number of the tokens.
unfoldable pub dtb_parser {ℓ} :
    {A : Type ℓ} → (n chars : ℕ) → Callback A → (dtb_addr : ℕ) → (ℕ → ℕ) → A → Option (ℕ × A)
dtb_parser n chars func dtb_addr memory a =
    let string_block = dtb_addr + big_word (dtb_addr + off_dt_strings_offset) memory in
    let struct_block = dtb_addr + big_word (dtb_addr + off_dt_struct_offset) memory in
    let parsed =
      skip_nops n struct_block memory
      >>= (λ t. parse_loop n chars func string_block t.0 t.1 memory a)
      >>= (λ a'. some (0, a')) in
    if ltb dtb_addr 10 then some (1, a) else parsed
