-- ===== src/Slabs.antt =====
-- lib/allocator/dynamic_allocator.c: the header of a slab with its bitmap, and the sizes of objects.
-- Slabs/Pools has the pools of slabs.
pub mod Objects
pub mod Overflow
pub mod Return
pub mod Pools
pub mod Sizes
mod Tests
use Prim.Native.Nat.{bit_and, bit_or}
use oscs25_labs.Base.{
  ℕ, zero, suc, ◌+◌, ◌-◌, ◌*◌, ◌/◌, ◌%◌, ◌^◌, Bool, true, false, Option, none, some, ltb, leb, ◌==◌,
  if◌then◌else◌, update, ◌>>=◌,
}
use oscs25_labs.Template.Links.{Links, node_init}
use oscs25_labs.Pages.{page_size}

abbrev pub obj_step : ℕ
obj_step = 16

abbrev pub obj_min_size : ℕ
obj_min_size = 16

abbrev pub obj_max_size : ℕ
obj_max_size = 1024

abbrev pub total_cache : ℕ
total_cache = (obj_max_size - obj_min_size) / obj_step + 1

-- `ALIGN(PAGE_HEADER_SIZE, OBJ_ALIGN)`
abbrev pub element_offset : ℕ
element_offset = 288

-- `ALIGN` of a `size_t` to a power of two clears the bits below it.
abbrev pub align_to : (target alignment : ℕ) → ℕ
align_to target alignment = let sum = (target + alignment - 1) % 2 ^ 32 in sum - sum % alignment

-- A row of the bitmap has 64 bits.
pub record PageHeader : Type 0 where
  pub obj_size : ℕ
  pub capacity : ℕ
  pub avail : ℕ
  pub bitmap : ℕ → ℕ

unfoldable pub get_pool_idx : ℕ → ℕ
get_pool_idx obj_size =
    if ltb obj_size obj_min_size then 0 else align_to (obj_size - obj_min_size) obj_step / obj_step

-- The size of the objects of a pool in `find_avail_slab`, where `none` is its `NULL`.
unfoldable pub pool_obj_size : ℕ → Option ℕ
pool_obj_size pool_idx =
    if leb total_cache pool_idx then none else some (pool_idx * obj_step + obj_min_size)

unfoldable pub is_full : PageHeader → Bool
is_full slab = slab.avail == 0

-- The header and its node of the list of slabs, which has the identifier of the page.
unfoldable pub init_page_header : (header obj_size : ℕ) → Links → PageHeader × Links
init_page_header header obj_size s =
    let capacity = (page_size - element_offset) / obj_size in
    (
      record { obj_size = obj_size; capacity = capacity; avail = capacity; bitmap = λ _. 0 },
      node_init header s,
    )

unfoldable pub clear_page_header : (header : ℕ) → Links → PageHeader × Links
clear_page_header header s =
    (record { obj_size = 0; capacity = 0; avail = 0; bitmap = λ _. 0 }, node_init header s)

-- `1 << bit` as an `int`, extended to 64 bits; from 32 on C leaves it undefined, which is `none`.
unfoldable pub int_bit : ℕ → Option ℕ
int_bit bit =
    if ltb bit 31 then some (2 ^ bit) else if bit == 31 then some (2 ^ 64 - 2 ^ 31) else none

-- The first bit of a row that is clear, from `bit` on.
unfoldable pub find_bit : (n bit row : ℕ) → Option ℕ
find_bit zero bit row = none
find_bit (suc n) bit row =
    let rest = find_bit n (bit + 1) (row / 2) in if row % 2 == 0 then some bit else rest

unfoldable pub mark_bit :
    (again : Option (ℕ × PageHeader)) → (i : ℕ) → Option ℕ → PageHeader → Option (ℕ × PageHeader)
mark_bit again i none slab = again
mark_bit again i (some bit) slab = do
  mask ← int_bit bit
  some (i * 64 + bit, record slab { bitmap = update slab.bitmap i (bit_or (slab.bitmap i) mask) })

unfoldable pub fill_rows : (n i : ℕ) → PageHeader → Option (ℕ × PageHeader)
fill_rows zero i slab = some (2 ^ 32 - 1, slab)
fill_rows (suc n) i slab =
    let rest = fill_rows n (i + 1) slab in
    let marked = mark_bit rest i (find_bit 64 0 (slab.bitmap i)) slab in
    if slab.bitmap i == 2 ^ 64 - 1 then rest else marked

-- The index of the object that is marked, -1 as a `size_t` if there is none.
unfoldable pub fill_bitmap : PageHeader → Option (ℕ × PageHeader)
fill_bitmap slab = fill_rows (align_to slab.capacity 64 / 64) 0 slab

-- The address of the object, 0 for `NULL`; `page_addr` is that of the slab.
unfoldable pub alloc_obj : (page_addr : ℕ) → PageHeader → Option (ℕ × PageHeader)
alloc_obj page_addr slab = do
  (obj_idx, slab') ← fill_bitmap slab
  some (
      if leb slab'.capacity obj_idx then (0, slab') else (
        page_addr + element_offset + obj_idx * slab'.obj_size,
        record slab' { avail = (slab'.avail + 2 ^ 32 - 1) % 2 ^ 32 },
      ))

-- `~(1 << bit)` clears what `int_bit` has.
unfoldable pub free_obj : (target_addr page_addr : ℕ) → PageHeader → Option (Bool × PageHeader)
free_obj target_addr page_addr slab =
    let target_offset = (target_addr + 2 ^ 64 - page_addr) % 2 ^ 32 in
    let obj_idx = (target_offset - element_offset) / slab.obj_size in
    let row = obj_idx / 64 in
    let freed = int_bit (obj_idx % 64) >>= λ mask. some (
      true,
      record slab {
        bitmap = update slab.bitmap row (bit_and (slab.bitmap row) (2 ^ 64 - 1 - mask));
        avail = (slab.avail + 1) % 2 ^ 32;
      },
    ) in
    if ltb target_offset element_offset
    then some (false, slab)
    else if ltb slab.capacity obj_idx
    then some (false, slab)
    else freed
