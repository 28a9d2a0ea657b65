-- ===== src/Pages.antt =====
-- lib/allocator/page_allocator.c: the buddy allocator of page frames. A page block is named by its
-- index in `page_array`; its node of the free lists has the same name. Logging is left out.
pub mod Owner
pub mod Shape
pub mod Aligned
pub mod Alloc
pub mod Clean
pub mod Cut
pub mod Free
pub mod FreeLists
pub mod Halve
pub mod Initial
pub mod Invariant
pub mod Join
pub mod Merge
pub mod Order
pub mod Split
pub mod Reserve
pub mod Sample
pub mod Reserved
pub mod Rounds
pub mod Sequence
mod Tests
use Prim.Native.Nat.{bit_and, bit_xor}
use oscs25_labs.Base.{
  ℕ, zero, suc, ◌+◌, ◌-◌, ◌*◌, ◌/◌, ◌%◌, ◌^◌, Bool, true, false, not, ◌&&◌, ◌||◌, Option, none,
  some, ltb, leb, ◌==◌, if◌then◌else◌, is_some, same_ptr, update,
}
use oscs25_labs.Template.Links.{Ptr, Links, node_init, list_add, list_remove}

-- `PageStatus` is an `int`, kept as its pattern of 32 bits, as the comparisons with `size_t` read it.
abbrev pub page_grouped : ℕ
page_grouped = 2 ^ 32 - 1

abbrev pub page_occupied : ℕ
page_occupied = 2 ^ 32 - 2

abbrev pub page_reserved : ℕ
page_reserved = 2 ^ 32 - 3

abbrev pub block_max_order : ℕ
block_max_order = 8

abbrev pub page_size : ℕ
page_size = 0x1000

abbrev pub mem_size : ℕ
mem_size = 0x3C000000

abbrev pub total_page : ℕ
total_page = 245760

-- `page_array` by field, and the heads of the free lists.
pub record Pages : Type 0 where
  pub status : ℕ → ℕ
  pub idx : ℕ → ℕ
  pub links : Links
  pub free_list : ℕ → Ptr

-- `status < 0` as an `int`.
abbrev pub is_negative : ℕ → Bool
is_negative status = leb (2 ^ 31) status

abbrev pub set_status : ℕ → ℕ → Pages → Pages
set_status i v p = record p { status = update p.status i v }

unfoldable pub free_list_insert : ℕ → ℕ → Pages → Pages
free_list_insert new_block level p = if is_negative level then p else record p {
  links = list_add new_block none (p.free_list level) p.links;
  free_list = update p.free_list level (some new_block);
}

-- The head leaves the list; the caller has seen that there is one.
unfoldable pub free_list_pop : ℕ → Pages → Ptr × Pages
free_list_pop level p =
    let head = p.free_list level in
    let (next, links') = list_remove head p.links in
    (head, record p { links = links'; free_list = update p.free_list level next })

unfoldable pub free_list_remove : ℕ → ℕ → Pages → Pages
free_list_remove idx level p =
    let head =
      if same_ptr (p.free_list level) (some idx) then p.links.next idx else p.free_list level in
    record p {
      links = (list_remove (some idx) p.links).1;
      free_list = update p.free_list level head;
    }

unfoldable pub init_block : ℕ → ℕ → ℕ → Pages → Pages
init_block block status idx p = free_list_insert block status (record p {
  status = update p.status block status;
  idx = update p.idx block idx;
  links = node_init block p.links;
})

-- The loop of `init_page_array`, with `n` rounds to go from the block `i`.
unfoldable pub init_blocks : ℕ → ℕ → Pages → Pages
unfolding init_block
init_blocks zero i p = p
init_blocks (suc n) i p =
    init_blocks n (i + 1)
      (init_block i (if i % 2 ^ block_max_order == 0 then block_max_order else page_grouped) i p)

unfoldable pub init_page_array : Pages → Pages
unfolding init_blocks
init_page_array p = init_blocks total_page 0 (record p { free_list = λ _. none })

-- `size > 0` loop; 33 rounds are enough for a number of 32 bits.
unfoldable pub order_loop : ℕ → ℕ → ℕ → ℕ
order_loop zero size order = order
order_loop (suc n) size order =
    let rest = order_loop n (size / 2) (order + 1) in if size == 0 then order else rest

-- `size + PAGE_SIZE - 1` and `size--` wrap at 32 bits.
unfoldable pub calculate_order : ℕ → ℕ
unfolding order_loop
calculate_order size = order_loop 33 (((size + 4095) % 2 ^ 32 / page_size + 2 ^ 32 - 1) % 2 ^ 32) 0

unfoldable pub to_block_idx : ℕ → ℕ
to_block_idx memaddr = if ltb mem_size memaddr then 0 else memaddr % 2 ^ 32 / page_size

unfoldable pub to_page_address : ℕ → ℕ
to_page_address block_idx = block_idx * page_size % 2 ^ 32

-- The first level from `level` on, among `n`, whose list is not empty.
unfoldable pub find_level : ℕ → ℕ → Pages → Option ℕ
find_level zero level p = none
find_level (suc n) level p =
    let rest = find_level n (level + 1) p in
    if is_some (p.free_list level) then some level else rest

-- One round of the split: the upper half of the target becomes a free block.
unfoldable pub split_step : ℕ → Pages → Pages
unfolding free_list_insert
split_step target p =
    let level = (p.status target + 2 ^ 32 - 1) % 2 ^ 32 in
    let buddy = bit_xor (p.idx target) (2 ^ level) in
    free_list_insert buddy level (set_status buddy level (set_status target level p))

-- `target->status` falls in each round, so its first value is enough fuel.
unfoldable pub split_loop : ℕ → ℕ → ℕ → Pages → Pages
split_loop zero order target p = p
split_loop (suc n) order target p =
    let rest = split_loop n order target (split_step target p) in
    if ltb order (p.status target) then rest else p

-- The end of `page_alloc`, with the block that `free_list_pop` returned.
unfoldable pub take_block : ℕ → Ptr × Pages → ℕ × Pages
unfolding split_loop to_page_address
take_block order (none, p) = (0, p)
take_block order (some target, p) =
    let p' = split_loop (p.status target) order target p in
    (to_page_address (p'.idx target), set_status target page_occupied p')

-- The rest of `page_alloc` behind the search, whose result is the level.
unfoldable pub alloc_at : ℕ → Option ℕ → Pages → ℕ × Pages
unfolding take_block
alloc_at order none p = (0, p)
alloc_at order (some level) p = take_block order (free_list_pop level p)

-- The address is 0 for `NULL`.
unfoldable pub page_alloc : ℕ → Pages → ℕ × Pages
unfolding find_level alloc_at
page_alloc size p =
    let order = calculate_order size in
    if size == 0
    then (0, p)
    else alloc_at order (find_level (block_max_order + 1 - order) order p) p

-- The smaller index stands for the merged block.
unfoldable pub merge_page_block : ℕ → ℕ → ℕ → Pages → ℕ × Pages
unfolding free_list_remove
merge_page_block target_idx buddy_idx level p =
    let p' = if is_negative (p.status buddy_idx) then p else free_list_remove buddy_idx level p in
    if ltb buddy_idx target_idx
    then (buddy_idx, set_status target_idx page_grouped p')
    else (target_idx, set_status buddy_idx page_grouped p')

-- `BUDDY_MERGEABLE`
abbrev pub buddy_mergeable : ℕ → ℕ → Pages → Bool
buddy_mergeable buddy_idx level p =
    (p.status buddy_idx == level) || (p.status buddy_idx == page_grouped)

-- The loop of `page_free`, with `n` rounds to go.
unfoldable pub free_loop : ℕ → ℕ → ℕ → Pages → Pages
free_loop zero level target_idx p = p
free_loop (suc n) level target_idx p =
    let buddy_idx = bit_xor target_idx (2 ^ level) in
    let merged = merge_page_block target_idx buddy_idx level p in
    let rest = free_loop n (level + 1) merged.0 merged.1 in
    if ltb buddy_idx target_idx && (p.status buddy_idx == page_grouped)
    then p
    else if not (buddy_mergeable buddy_idx level p) || (level == block_max_order)
    then free_list_insert target_idx level (set_status target_idx level p)
    else rest

unfoldable pub page_free : ℕ → Pages → Pages
unfolding free_loop to_block_idx
page_free addr p =
    let target_idx = to_block_idx addr in
    if not (addr % page_size == 0)
    then p
    else if not (p.status target_idx == page_occupied)
    then p
    else free_loop (block_max_order + 1) 0 target_idx p

-- `while(page_array[parent].status == PAGE_GROUPED) parent &= (parent - 1);`, where `none` means that
-- the fuel ran out.
unfoldable pub find_parent : ℕ → (ℕ → ℕ) → ℕ → Option ℕ
find_parent zero status parent = none
find_parent (suc n) status parent =
    let rest = find_parent n status (bit_and parent (parent - 1)) in
    if status parent == page_grouped then rest else some parent

-- `BOOL(page_array[parent].status == PAGE_OCCUPIED)`
unfoldable pub occupied_at : Option ℕ → Pages → Option Bool
occupied_at none p = none
occupied_at (some parent) p = some (p.status parent == page_occupied)

-- A round clears a digit of the index, so it takes at most `page_idx + 1` of them.
unfoldable pub is_allocated : ℕ → Pages → Option Bool
unfolding find_parent to_block_idx occupied_at
is_allocated addr p =
    let page_idx = to_block_idx addr in occupied_at (find_parent (page_idx + 1) p.status page_idx) p
