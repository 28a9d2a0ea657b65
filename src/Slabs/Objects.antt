-- ===== src/Slabs/Objects.antt =====
-- A slab of at most 31 objects, of which the digits of one row say which are in use.
use native.Mathlib.Nat.{mul-le-mul_right, pow-le-pow_right}
use native.Mathlib.Decide.{ℕ_discrete}
use oscs25_labs.Base.{
  ℕ, zero, suc, ◌+◌, ◌-◌, ◌*◌, ◌/◌, ◌%◌, ◌^◌, ◌≤◌, ◌<◌, ◌≡◌, ◌≢◌, ◌⊎◌, inl, inr, refl, ap, ◌∙◌,
  true, false, Option, some, ltb, leb, ◌==◌, arith, update,
}
use oscs25_labs.Base.Digits.{
  digit_at, set_digit, digit_here, digit_elsewhere, clear_count, clear_count-set, clear_lowest_of,
  set_low, clear_count_le,
}
use oscs25_labs.Pages.{page_size}
use oscs25_labs.Slabs.{
  PageHeader, element_offset, align_to, int_bit, find_bit, mark_bit, fill_rows, fill_bitmap,
  alloc_obj,
}

pub record IsSlab (slab : PageHeader) : Type 0 where
  pub few : slab.capacity < 32
  pub size : 0 < slab.obj_size
  pub fits : slab.capacity * slab.obj_size ≤ page_size - element_offset
  pub row : slab.bitmap 0 < 2 ^ slab.capacity
  pub avail : slab.avail ≡ clear_count slab.capacity (slab.bitmap 0)

abbrev pub InUse : PageHeader → ℕ → Type 0
InUse slab i = digit_at i (slab.bitmap 0) ≡ 1

abbrev pub object_at : (page : ℕ) → PageHeader → ℕ → ℕ
object_at page slab i = page + element_offset + i * slab.obj_size

-- The slab with the object `place` in use.
abbrev pub with_object : PageHeader → ℕ → PageHeader
with_object slab place = record slab {
  bitmap = update slab.bitmap 0 (slab.bitmap 0 + 2 ^ place);
  avail = slab.avail - 1;
}

find_bit_lowest :
    (n bit row place : ℕ)
    → place < n
    → digit_at place row ≡ 0
    → ((other : ℕ) → other < place → digit_at other row ≡ 1)
    → find_bit n bit row ≡ some (bit + place)
unfolding find_bit
find_bit_lowest zero bit row place inside clear below = absurd (omega arith)
find_bit_lowest (suc n) bit row zero inside clear below =
    let test : (row % 2 == 0) ≡ true = ground (arith, clear) in rw test (ap some (omega arith))
find_bit_lowest (suc n) bit row (suc place) inside clear below =
    let first = below 0 (omega arith) in
    let test : (row % 2 == 0) ≡ false = ground (arith, first) in
    rw test (
      find_bit_lowest n (bit + 1) (row / 2) place (omega arith) clear
        (λ other low. below (suc other) (omega arith))
      ∙ ap some (omega arith))

fill_bitmap_lowest :
    (slab : PageHeader) (place : ℕ)
    → IsSlab slab
    → place < slab.capacity
    → digit_at place (slab.bitmap 0) ≡ 0
    → ((other : ℕ) → other < place → digit_at other (slab.bitmap 0) ≡ 1)
    → fill_bitmap slab
      ≡ some (place, record slab { bitmap = update slab.bitmap 0 (slab.bitmap 0 + 2 ^ place) })
unfolding fill_bitmap fill_rows mark_bit int_bit
fill_bitmap_lowest slab place is inside clear below =
    let rows : align_to slab.capacity 64 / 64 ≡ 1 = omega (arith, is.few) in
    let top =
      pow-le-pow_right {n = 2} (omega arith) {i = slab.capacity} {j = 31} (omega (arith, is.few)) in
    let full : (slab.bitmap 0 == 2 ^ 64 - 1) ≡ false = ground (arith, is.row, top) in
    let bit : find_bit 64 0 (slab.bitmap 0) ≡ some place =
      find_bit_lowest 64 0 (slab.bitmap 0) place (omega (arith, is.few)) clear below
      ∙ ap some (omega arith) in
    let small : ltb place 31 ≡ true = ground (arith, is.few) in
    let index : 0 * 64 + place ≡ place = omega arith in
    rw (rows, full, bit, small, index, set_digit place (slab.bitmap 0) clear) refl

-- What `alloc_obj` gives: the lowest object that is not in use, inside the page and apart from those
-- in use; it is in use then, and nothing else about the objects has changed.
pub record Allocated (page : ℕ) (slab : PageHeader) (r : Option (ℕ × PageHeader)) : Type 0 where
  pub place : ℕ
  pub inside : place < slab.capacity
  pub result : r ≡ some (object_at page slab place, with_object slab place)
  pub fresh : digit_at place (slab.bitmap 0) ≡ 0
  pub lowest : (i : ℕ) → i < place → InUse slab i
  pub above : page + element_offset ≤ object_at page slab place
  pub below : object_at page slab place + slab.obj_size ≤ page + page_size
  pub apart :
      (i : ℕ)
      → InUse slab i
      → (object_at page slab i + slab.obj_size ≤ object_at page slab place)
        ⊎ (object_at page slab place + slab.obj_size ≤ object_at page slab i)
  pub marked : InUse (with_object slab place) place
  pub others :
      (i : ℕ)
      → i ≢ place
      → digit_at i ((with_object slab place).bitmap 0) ≡ digit_at i (slab.bitmap 0)
  pub slab' : IsSlab (with_object slab place)

with_object-IsSlab :
    (slab : PageHeader) (place : ℕ)
    → IsSlab slab
    → place < slab.capacity
    → digit_at place (slab.bitmap 0) ≡ 0
    → IsSlab (with_object slab place)
with_object-IsSlab slab place is inside clear = record {
  few = is.few;
  size = is.size;
  fits = is.fits;
  row = set_low slab.capacity place (slab.bitmap 0) inside is.row clear;
  avail = omega (arith, is.avail, clear_count-set slab.capacity place (slab.bitmap 0) inside clear);
}

-- Objects of different places have no byte in common.
pub objects_apart :
    (page : ℕ) (slab : PageHeader) (i j : ℕ)
    → i < j
    → object_at page slab i + slab.obj_size ≤ object_at page slab j
objects_apart page slab i j low =
    omega (arith, mul-le-mul_right {m = suc i} {n = j} slab.obj_size (omega arith))

other_place :
    (slab : PageHeader) (i place : ℕ)
    → InUse slab i
    → digit_at place (slab.bitmap 0) ≡ 0
    → (i < place) ⊎ (place < i)
other_place slab i place used clear = elim (ℕ_discrete i place) [
  | yes same ↦
      let both : digit_at i (slab.bitmap 0) ≡ 0 =
        ap (λ (n : ℕ). digit_at n (slab.bitmap 0)) same ∙ clear in
      absurd (omega (arith, used, both))
  | no differ ↦ omega (arith, differ)
]

-- A slab of at most 31 objects with one available: alloc_obj gives the lowest object that is not in
-- use, inside the page and apart from those in use, marks it, and leaves the others as they are.
pub alloc_obj-Allocated :
    (page : ℕ) (slab : PageHeader)
    → IsSlab slab
    → 0 < slab.avail
    → Allocated page slab (alloc_obj page slab)
unfolding alloc_obj
alloc_obj-Allocated page slab is room =
    let (place, inside, clear, lowest) =
      clear_lowest_of slab.capacity (slab.bitmap 0) (omega (arith, is.avail)) in
    let end = objects_apart page slab place slab.capacity inside in
    let low : leb slab.capacity place ≡ false = ground arith in
    let fewer : (slab.avail + 2 ^ 32 - 1) % 2 ^ 32 ≡ slab.avail - 1 =
      omega (arith, is.few, is.avail, clear_count_le slab.capacity (slab.bitmap 0)) in
    record {
      place = place;
      inside = inside;
      result = rw (fill_bitmap_lowest slab place is inside clear lowest, low, fewer) refl;
      fresh = clear;
      lowest = lowest;
      above = omega arith;
      below = omega (arith, end, is.fits);
      apart = λ i used. elim (other_place slab i place used clear) [
        | inl before ↦ inl (objects_apart page slab i place before)
        | inr behind ↦ inr (objects_apart page slab place i behind)
      ];
      marked = digit_here place (slab.bitmap 0) clear;
      others = λ i ne. digit_elsewhere place i (slab.bitmap 0) clear ne;
      slab' = with_object-IsSlab slab place is inside clear;
    }
