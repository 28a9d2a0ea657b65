-- ===== src/Slabs/Overflow.antt =====
-- `1 << 31` is an `int`: with it a slab of more than 32 objects loses the rest of its first row.
use Prim.Native.Nat.{bit_or}
use oscs25_labs.Base.{
  ℕ, ◌+◌, ◌-◌, ◌*◌, ◌/◌, ◌%◌, ◌^◌, ◌≤◌, ◌<◌, ◌≡◌, refl, sym, ap, subst, true, false, Option, some,
  leb, arith, update,
}
use oscs25_labs.Slabs.{
  PageHeader, element_offset, align_to, int_bit, find_bit, mark_bit, fill_rows, fill_bitmap,
  alloc_obj,
}

-- The slab with the object 31 in use, and all higher digits of the row.
abbrev pub row_lost : PageHeader → PageHeader
row_lost slab = record slab { bitmap = update slab.bitmap 0 (2 ^ 64 - 1); avail = slab.avail - 1 }

one_row : (capacity : ℕ) → 32 < capacity → capacity ≤ 64 → align_to capacity 64 / 64 ≡ 1
one_row capacity many few = omega arith

-- A slab with more than 32 and at most 64 objects has the first 31 in use. The next call of
-- `alloc_obj` gives the object 31, and the call behind it gives `NULL`, though objects are available.
pub alloc_obj-row_lost :
    (page : ℕ) (slab : PageHeader)
    → 32 < slab.capacity
    → slab.capacity ≤ 64
    → slab.bitmap 0 ≡ 2 ^ 31 - 1
    → slab.avail ≡ slab.capacity - 31
    → (alloc_obj page slab ≡ some (page + element_offset + 31 * slab.obj_size, row_lost slab))
      × (alloc_obj page (row_lost slab) ≡ some (0, row_lost slab))
      × (0 < (row_lost slab).avail)
unfolding alloc_obj fill_bitmap fill_rows mark_bit find_bit int_bit
alloc_obj-row_lost page slab many few row avail =
    let rows = one_row slab.capacity many few in
    let inside : leb slab.capacity 31 ≡ false = ground arith in
    let outside : leb slab.capacity (2 ^ 32 - 1) ≡ true = ground arith in
    let fewer : (slab.avail + 2 ^ 32 - 1) % 2 ^ 32 ≡ slab.avail - 1 = omega arith in
    let mask : bit_or (slab.bitmap 0) (2 ^ 64 - 2 ^ 31) ≡ 2 ^ 64 - 1 =
      ap (λ (n : ℕ). bit_or n (2 ^ 64 - 2 ^ 31)) row in
    let given = λ (n : ℕ).
      ◌≡◌ {A = Option (ℕ × PageHeader)}
        (some (
          page + element_offset + 31 * slab.obj_size,
          record slab { bitmap = update slab.bitmap 0 n; avail = slab.avail - 1 },
        ))
        (some (page + element_offset + 31 * slab.obj_size, row_lost slab)) in
    (
      rw (rows, row, inside, fewer) (subst given (sym mask) refl),
      rw (rows, outside) refl,
      omega arith,
    )
