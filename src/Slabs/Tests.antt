-- ===== src/Slabs/Tests.antt =====
-- Slabs on small inputs.
use oscs25_labs.Base.{
  ℕ, ◌+◌, ◌*◌, ◌<◌, true, ◌==◌, if◌then◌else◌, Option, none, ◌-◌, ◌^◌, ◌≡◌, refl, some, arith,
  update,
}
use oscs25_labs.Pages.{
  page_reserved, page_alloc, calculate_order, order_loop, find_level, alloc_at, take_block,
  free_list_pop, split_loop, to_page_address,
}
use oscs25_labs.Slabs.Pools.{
  Pools, dyna_alloc, alloc_in_pool, find_avail_slab, first_slab, new_slab, avail_loop, alloc_from,
}
use oscs25_labs.Slabs.{
  init_page_header, is_full, alloc_obj, PageHeader, get_pool_idx, pool_obj_size, fill_bitmap,
  fill_rows, mark_bit, find_bit, int_bit,
}
use oscs25_labs.Slabs.{element_offset, free_obj}
use oscs25_labs.Slabs.Objects.{IsSlab, Allocated, alloc_obj-Allocated}
use oscs25_labs.Slabs.Return.{free_obj-alloc_obj}
use oscs25_labs.Slabs.Overflow.{row_lost, alloc_obj-row_lost}

-- 31 of 238 objects are in use.
abbrev slab : PageHeader
slab = record { obj_size = 16; capacity = 238; avail = 207; bitmap = λ _. 2 ^ 31 - 1 }

fill_runs : fill_bitmap slab ≡ some (31, record slab { bitmap = update slab.bitmap 0 (2 ^ 64 - 1) })
unfolding fill_bitmap fill_rows mark_bit find_bit int_bit
fill_runs = refl

-- Page 5 is free, and no pool has a slab: the first object of 100 bytes begins behind the header.
abbrev pools : Pools
pools = record {
  memory_pool = λ _. none;
  slab = λ _. slab;
  node = record { prev = λ _. none; next = λ _. none };
  pages = record {
    status = λ i. if i == 5 then 0 else page_reserved;
    idx = λ i. i;
    links = record { prev = λ _. none; next = λ _. none };
    free_list = λ k. if k == 0 then some 5 else none;
  };
}

address_of : Option (ℕ × Pools) → Option ℕ
address_of none = none
address_of (some (address, s)) = some address

dyna_alloc_runs : address_of (dyna_alloc 2 100 pools) ≡ some (0x5000 + 288)
unfolding dyna_alloc get_pool_idx pool_obj_size alloc_in_pool find_avail_slab first_slab new_slab
    init_page_header avail_loop is_full alloc_from alloc_obj fill_bitmap fill_rows mark_bit find_bit
    int_bit page_alloc calculate_order order_loop find_level alloc_at take_block free_list_pop
    split_loop to_page_address address_of
dyna_alloc_runs = refl

-- Objects of 128 bytes, of which the first and the third are in use.
abbrev small_slab : PageHeader
small_slab = record {
  obj_size = 128;
  capacity = 29;
  avail = 27;
  bitmap = λ i. if i == 0 then 5 else 0;
}

small_slab-IsSlab : IsSlab small_slab
small_slab-IsSlab = record {
  few = omega arith;
  size = omega arith;
  fits = omega arith;
  row = omega arith;
  avail = refl;
}

alloc_obj-Allocated_example : Allocated 0x5000 small_slab (alloc_obj 0x5000 small_slab)
alloc_obj-Allocated_example = alloc_obj-Allocated 0x5000 small_slab small_slab-IsSlab (omega arith)

free_obj-alloc_obj_example :
    (address : ℕ) × (slab' : PageHeader) × (alloc_obj 0x5000 small_slab ≡ some (address, slab'))
    × (free_obj address 0x5000 slab' ≡ some (true, small_slab))
free_obj-alloc_obj_example =
    free_obj-alloc_obj 0x5000 small_slab small_slab-IsSlab (omega arith) (omega arith)

abbrev full_slab : PageHeader
full_slab = record {
  obj_size = 64;
  capacity = 59;
  avail = 28;
  bitmap = λ i. if i == 0 then 2 ^ 31 - 1 else 0;
}

alloc_obj-row_lost_example :
    (alloc_obj 0x5000 full_slab ≡ some (0x5000 + element_offset + 31 * 64, row_lost full_slab))
    × (alloc_obj 0x5000 (row_lost full_slab) ≡ some (0, row_lost full_slab))
    × (0 < (row_lost full_slab).avail)
alloc_obj-row_lost_example =
    alloc_obj-row_lost 0x5000 full_slab (omega arith) (omega arith) refl refl
