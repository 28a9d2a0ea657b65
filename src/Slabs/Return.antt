-- ===== src/Slabs/Return.antt =====
-- A slab of at most 31 objects takes back what it gave.
use native.Mathlib.Nat.{pow-le-pow_right, mul-div_cancel}
use Prim.Native.Nat.{bit_and}
use mathlib.Core.Path.{fun_ext}
use oscs25_labs.Base.{
  ℕ, ◌+◌, ◌-◌, ◌*◌, ◌/◌, ◌%◌, ◌^◌, ◌≤◌, ◌<◌, ◌≡◌, ◌≢◌, inl, inr, refl, sym, ap, ◌∙◌, Bool, true,
  false, Option, some, ltb, ◌==◌, arith, update, ap₂, Bool-cases,
}
use oscs25_labs.Base.Digits.{
  digit_at, clear_digit, digit_elsewhere, digit_apart, clear_count, clear_count-set, clear_count_le,
}
use oscs25_labs.Pages.{page_size}
use oscs25_labs.Slabs.{PageHeader, element_offset, int_bit, alloc_obj, free_obj}
use oscs25_labs.Slabs.Objects.{
  IsSlab, InUse, object_at, with_object, objects_apart, alloc_obj-Allocated,
}

-- The object that is freed is the one at the address.
offset_of :
    (page : ℕ) (slab : PageHeader) (i : ℕ)
    → object_at page slab i < 2 ^ 32
    → (object_at page slab i + 2 ^ 64 - page) % 2 ^ 32 ≡ element_offset + i * slab.obj_size
offset_of page slab i low = omega arith

place_of :
    (slab : PageHeader) (i : ℕ)
    → 0 < slab.obj_size
    → (element_offset + i * slab.obj_size - element_offset) / slab.obj_size ≡ i
place_of slab i size =
    let offset : element_offset + i * slab.obj_size - element_offset ≡ i * slab.obj_size =
      omega arith in
    rw offset (mul-div_cancel i {n = slab.obj_size} size)

pub free_obj_value :
    (page : ℕ) (slab : PageHeader) (i rest : ℕ)
    → IsSlab slab
    → i < slab.capacity
    → page + page_size ≤ 2 ^ 32
    → slab.bitmap 0 ≡ rest + 2 ^ i
    → digit_at i rest ≡ 0
    → free_obj (object_at page slab i) page slab
      ≡ some (true, record slab { bitmap = update slab.bitmap 0 rest; avail = slab.avail + 1 })
unfolding free_obj int_bit
free_obj_value page slab i rest is inside low row clear =
    let end = objects_apart page slab i slab.capacity inside in
    let top =
      pow-le-pow_right {n = 2} (omega arith) {i = slab.capacity} {j = 31} (omega (arith, is.few)) in
    let offset = offset_of page slab i (omega (arith, end, is.fits, is.size)) in
    let index = place_of slab i is.size in
    let above : ltb (element_offset + i * slab.obj_size) element_offset ≡ false = ground arith in
    let within : ltb slab.capacity i ≡ false = ground arith in
    let row_0 : i / 64 ≡ 0 = omega (arith, is.few) in
    let bit : i % 64 ≡ i = omega (arith, is.few) in
    let small : ltb i 31 ≡ true = ground (arith, is.few) in
    let cleared : bit_and (slab.bitmap 0) (2 ^ 64 - 1 - 2 ^ i) ≡ rest =
      ap (λ (n : ℕ). bit_and n (2 ^ 64 - 1 - 2 ^ i)) row
      ∙ clear_digit 64 i rest (omega (arith, is.few)) (omega (arith, is.row, row, top)) clear in
    let more : (slab.avail + 1) % 2 ^ 32 ≡ slab.avail + 1 =
      omega (arith, is.few, is.avail, clear_count_le slab.capacity (slab.bitmap 0)) in
    rw (offset, index, above, within, row_0, bit, small, cleared, more) refl

-- What `free_obj` does to an object in use: it is not in use then, all others stay.
pub record Freed (slab : PageHeader) (i : ℕ) (r : Option (Bool × PageHeader)) : Type 0 where
  pub slab' : PageHeader
  pub result : r ≡ some (true, slab')
  pub is_slab : IsSlab slab'
  pub unmarked : digit_at i (slab'.bitmap 0) ≡ 0
  pub others : (j : ℕ) → j ≢ i → digit_at j (slab'.bitmap 0) ≡ digit_at j (slab.bitmap 0)
  pub avail : slab'.avail ≡ slab.avail + 1
  pub sizes : (slab'.obj_size ≡ slab.obj_size) × (slab'.capacity ≡ slab.capacity)

-- An object in use of a slab of at most 31 objects, in a page below 2 ^ 32, is freed: it is not in use
-- then, one object more is available, and all others stay as they are.
pub free_obj-Freed :
    (page : ℕ) (slab : PageHeader) (i : ℕ)
    → IsSlab slab
    → i < slab.capacity
    → InUse slab i
    → page + page_size ≤ 2 ^ 32
    → Freed slab i (free_obj (object_at page slab i) page slab)
free_obj-Freed page slab i is inside used low =
    let (rest, row, clear) = digit_apart i (slab.bitmap 0) used in
    let count = clear_count-set slab.capacity i rest inside clear in
    let same : clear_count slab.capacity (slab.bitmap 0)
        ≡ clear_count slab.capacity (rest + 2 ^ i) =
      ap (clear_count slab.capacity) row in
    record {
      slab' = record slab { bitmap = update slab.bitmap 0 rest; avail = slab.avail + 1 };
      result = free_obj_value page slab i rest is inside low row clear;
      is_slab = record {
        few = is.few;
        size = is.size;
        fits = is.fits;
        row = omega (arith, is.row, row);
        avail = omega (arith, is.avail, count, same);
      };
      unmarked = clear;
      others = λ j ne. sym (ap (digit_at j) row ∙ digit_elsewhere i j rest clear ne);
      avail = refl;
      sizes = (refl, refl);
    }

back_again : (b : ℕ → ℕ) (x : ℕ) → update (update b 0 x) 0 (b 0) ≡ b
back_again b x = fun_ext (λ i. elim (Bool-cases (i == 0)) [
  | inl zero_row ↦ let e : i ≡ 0 = ground arith in rw (zero_row, e) refl
  | inr other ↦ rw other refl
])

-- A slab of at most 31 objects, in a page below 2 ^ 32, with an object available: what `alloc_obj`
-- gives, `free_obj` takes back, and the slab is the same again.
pub free_obj-alloc_obj :
    (page : ℕ) (slab : PageHeader)
    → IsSlab slab
    → 0 < slab.avail
    → page + page_size ≤ 2 ^ 32
    → (address : ℕ) × (slab' : PageHeader) × (alloc_obj page slab ≡ some (address, slab'))
      × (free_obj address page slab' ≡ some (true, slab))
free_obj-alloc_obj page slab is room low =
    let a = alloc_obj-Allocated page slab is room in
    let slab' = with_object slab a.place in
    let freed =
      free_obj_value page slab' a.place (slab.bitmap 0) a.slab' a.inside low refl a.fresh in
    let bitmap = back_again slab.bitmap (slab.bitmap 0 + 2 ^ a.place) in
    let avail : slab.avail - 1 + 1 ≡ slab.avail = omega arith in
    (
      object_at page slab a.place,
      slab',
      a.result,
      freed
          ∙ ap₂ (λ (b : ℕ → ℕ) (n : ℕ). some (true, record slab { bitmap = b; avail = n })) bitmap
              avail,
    )
