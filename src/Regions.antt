-- ===== src/Regions.antt =====
-- lib/allocator: re_region.c, regions of pages with a count of references, simple_alloc.c, the heap
-- of the start, and startup_allocator.c, which reserves the memory that is in use.
pub mod Count
mod Tests
use oscs25_labs.Base.{
  ℕ, zero, suc, ◌+◌, ◌-◌, ◌%◌, ◌^◌, Bool, true, false, Option, none, some, List, [], ◌∷◌, ltb, ◌==◌,
  ◌>>=◌, if◌then◌else◌,
}
use oscs25_labs.Pages.{Pages, init_page_array, page_alloc, page_free}
use oscs25_labs.Pages.Reserve.{memory_reserve}
use oscs25_labs.Words.{align}

pub record RcRegion : Type 0 where
  pub count : ℕ
  pub mem : ℕ

-- `allocated` is whether `dyna_alloc` gives the region; `none` is `NULL`.
unfoldable pub rc_alloc : (allocated : Bool) → (size : ℕ) → Pages → Option RcRegion × Pages
rc_alloc false size p = (none, p)
rc_alloc true size p =
    let (mem, p') = page_alloc size p in
    if mem == 0 then (none, p') else (some (record { mem = mem; count = 1 }), p')

unfoldable pub add_ref : RcRegion → RcRegion
add_ref region = record region { count = (region.count + 1) % 2 ^ 32 }

-- `none` is a region that is freed.
unfoldable pub rc_free : RcRegion → Pages → Option RcRegion × Pages
rc_free region p =
    let count' = (region.count + 2 ^ 32 - 1) % 2 ^ 32 in
    if count' == 0
    then (none, page_free region.mem p)
    else (some (record region { count = count' }), p)

-- The address, 0 for `NULL`, and the new `memory_ptr`, which is aligned even if the heap is full.
unfoldable pub simple_alloc : (heap_end memory_ptr size : ℕ) → Option (ℕ × ℕ)
simple_alloc heap_end memory_ptr size = do
  memory_ptr' ← align memory_ptr 8
  some (
      if ltb heap_end (memory_ptr' + size)
      then (0, memory_ptr')
      else (memory_ptr', memory_ptr' + size))

unfoldable pub reserve_all : List (ℕ × ℕ) → Pages → Option Pages
reserve_all [] p = some p
reserve_all ((start, size) ∷ regions) p = memory_reserve start size p >>= reserve_all regions

-- `regions` are the addresses and sizes of the spin table, the page array, the kernel, the device
-- tree and the ram disk, in this order.
unfoldable pub init_mem : (regions : List (ℕ × ℕ)) → Pages → Option Pages
init_mem regions p = reserve_all regions (init_page_array p)
