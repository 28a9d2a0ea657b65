-- ===== src/Words.antt =====
-- lib/utils.c: alignment, byte order, powers of two and the copy of memory.
pub mod Access
pub mod Align
pub mod Copy
pub mod Endian
mod Tests
use Prim.Native.Nat.{bit_and, bit_or}
use oscs25_labs.Base.{
  ℕ, zero, suc, ◌+◌, ◌-◌, ◌*◌, ◌/◌, ◌%◌, ◌^◌, ◌==◌, if◌then◌else◌, update, Option, none, some,
}

-- The bytes of memory from `source` are copied to `dest`, the lowest first.
unfoldable pub memcpy : (dest source size : ℕ) → (ℕ → ℕ) → ℕ → ℕ
memcpy dest source zero memory = memory
memcpy dest source (suc size) memory =
    memcpy (dest + 1) (source + 1) size (update memory dest (memory source))

-- `base` has 32 bits, so the mask `~(base - 1)` has none above them; `none` is `NULL`.
unfoldable pub align : (addr base : ℕ) → Option ℕ
align addr base =
    let ones = (base + 2 ^ 32 - 1) % 2 ^ 32 in
    let sum = (addr + base + 2 ^ 64 - 1) % 2 ^ 64 in
    if bit_and base ones == 0 then some (bit_and sum (2 ^ 32 - 1 - ones)) else none

-- `big_uint & 0xFF` is the lowest byte.
unfoldable pub le_loop : ℕ → (little_uint big_uint : ℕ) → ℕ
le_loop zero little_uint big_uint = little_uint
le_loop (suc i) little_uint big_uint =
    le_loop i ((little_uint * 2 ^ 8 % 2 ^ 32 + big_uint % 2 ^ 8) % 2 ^ 32) (big_uint / 2 ^ 8)

unfoldable pub to_le_u32 : ℕ → ℕ
to_le_u32 big_uint = le_loop 4 0 big_uint

-- `num |= num >> shift`
unfoldable pub smear : (shift num : ℕ) → ℕ
smear shift num = bit_or num (num / 2 ^ shift)

unfoldable pub roundup_pow2 : ℕ → ℕ
roundup_pow2 num =
    let smeared = smear 16 (smear 8 (smear 4 (smear 2 (smear 1 (num - 1))))) in
    if num == 0 then 1 else (smeared + 1) % 2 ^ 32
