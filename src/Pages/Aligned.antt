-- ===== src/Pages/Aligned.antt =====
-- The addresses that `page_alloc` returns begin a page.
use oscs25_labs.Base.{
  ℕ, ◌+◌, ◌-◌, ◌%◌, ◌^◌, ◌<◌, ◌≡◌, Bool-cases, inl, inr, Option, none, some, arith, ◌==◌,
}
use oscs25_labs.Template.Links.{Ptr}
use oscs25_labs.Pages.{
  Pages, page_size, block_max_order, page_alloc, alloc_at, take_block, to_page_address,
  calculate_order, find_level, free_list_pop,
}

abbrev pub IsPage : (address : ℕ) → Type 0
IsPage address = (address % page_size ≡ 0) × (address < 2 ^ 32)

take_block-IsPage : (order : ℕ) (r : Ptr × Pages) → IsPage ((take_block order r).0)
unfolding take_block to_page_address
take_block-IsPage order (none, p) = (omega arith, omega arith)
take_block-IsPage order (some target, p) = (omega arith, omega arith)

alloc_at-IsPage : (order : ℕ) (level : Option ℕ) (p : Pages) → IsPage ((alloc_at order level p).0)
unfolding alloc_at
alloc_at-IsPage order none p = (omega arith, omega arith)
alloc_at-IsPage order (some level) p = take_block-IsPage order (free_list_pop level p)

pub page_alloc-IsPage : (size : ℕ) (p : Pages) → IsPage ((page_alloc size p).0)
unfolding page_alloc
page_alloc-IsPage size p = elim (Bool-cases (size == 0)) [
  | inl none_wanted ↦ rw none_wanted (omega arith, omega arith)
  | inr wanted ↦
      let order = calculate_order size in
      rw wanted (alloc_at-IsPage order (find_level (block_max_order + 1 - order) order p) p)
]
