-- ===== src/Slabs/Pools.antt =====
-- The pools of slabs: `dyna_alloc` and `dyna_free` over the page allocator. A slab is named by the
-- address of its page.
use oscs25_labs.Base.{
  ℕ, zero, suc, Bool, true, false, ◌&&◌, Option, none, some, ◌==◌, ◌>>=◌, if◌then◌else◌, update,
}
use oscs25_labs.Template.Links.{Ptr, Links, list_add, list_remove}
use oscs25_labs.Pages.{
  Pages, page_size, page_alloc, page_free, is_allocated, to_block_idx, to_page_address,
}
use oscs25_labs.Slabs.{
  PageHeader, get_pool_idx, pool_obj_size, is_full, init_page_header, alloc_obj, free_obj,
}

-- `memory_pool`, the headers with their nodes, and the page allocator.
pub record Pools : Type 0 where
  pub memory_pool : ℕ → Ptr
  pub slab : ℕ → PageHeader
  pub node : Links
  pub pages : Pages

unfoldable pub init_memory_pool : Pools → Pools
init_memory_pool s = record s { memory_pool = λ _. none }

-- A page with a new header; `none` is a write through `NULL`.
unfoldable pub new_slab : (obj_size : ℕ) → Pools → Option (ℕ × Pools)
new_slab obj_size s =
    let (page, pages') = page_alloc page_size s.pages in
    let (header, node') = init_page_header page obj_size s.node in
    if page == 0
    then none
    else some (page, record s { slab = update s.slab page header; node = node'; pages = pages' })

-- The first slab of a pool, which is made if there is none.
unfoldable pub first_slab : (pool_idx obj_size : ℕ) → Ptr → Pools → Option (ℕ × Pools)
first_slab pool_idx obj_size (some head) s = some (head, s)
first_slab pool_idx obj_size none s = do
  (page, s') ← new_slab obj_size s
  some (page, record s' { memory_pool = update s'.memory_pool pool_idx (some page) })

-- The slab behind a full one; at the end of the list a new one is linked in.
unfoldable pub next_slab : (obj_size slab : ℕ) → Ptr → Pools → Option (ℕ × Pools)
next_slab obj_size slab (some follower) s = some (follower, s)
next_slab obj_size slab none s = do
  (page, s') ← new_slab obj_size s
  some (page, record s' { node = list_add page (some slab) none s'.node })

-- The loop of `find_avail_slab`, which goes over each slab of the pool at most once.
unfoldable pub avail_loop : ℕ → (obj_size slab : ℕ) → Pools → Option (ℕ × Pools)
avail_loop zero obj_size slab s = none
avail_loop (suc n) obj_size slab s =
    let on =
      next_slab obj_size slab (s.node.next slab) s >>= (λ r. avail_loop n obj_size r.0 r.1) in
    if is_full (s.slab slab) then on else some (slab, s)

-- For a pool whose objects have the size given.
unfoldable pub find_avail_slab : ℕ → (pool_idx obj_size : ℕ) → Pools → Option (ℕ × Pools)
find_avail_slab n pool_idx obj_size s = do
  (head, s') ← first_slab pool_idx obj_size (s.memory_pool pool_idx) s
  avail_loop n obj_size head s'

unfoldable pub alloc_from : ℕ × Pools → Option (ℕ × Pools)
alloc_from (page, s) = do
  (address, header) ← alloc_obj page (s.slab page)
  some (address, record s { slab = update s.slab page header })

-- A pool that does not exist gives `NULL`, the address 0.
unfoldable pub alloc_in_pool : ℕ → (pool_idx : ℕ) → Option ℕ → Pools → Option (ℕ × Pools)
alloc_in_pool n pool_idx none s = some (0, s)
alloc_in_pool n pool_idx (some obj_size) s = find_avail_slab n pool_idx obj_size s >>= alloc_from

unfoldable pub dyna_alloc : ℕ → (size : ℕ) → Pools → Option (ℕ × Pools)
dyna_alloc n size s = alloc_in_pool n (get_pool_idx size) (pool_obj_size (get_pool_idx size)) s

-- An empty slab that is not alone in its pool leaves it, and its page is free.
unfoldable pub release_slab : (page : ℕ) → Pools → Pools
release_slab page s =
    let pool_idx = get_pool_idx (s.slab page).obj_size in
    record s {
      memory_pool =
          if is_page page (s.memory_pool pool_idx)
          then update s.memory_pool pool_idx (s.node.next page)
          else s.memory_pool;
      node = (list_remove (some page) s.node).1;
      pages = page_free page s.pages;
    }
  where
    is_page : ℕ → Ptr → Bool
    is_page page none = false
    is_page page (some head) = head == page

unfoldable pub is_linked : Ptr → Ptr → Bool
is_linked none none = false
is_linked none (some _) = true
is_linked (some _) next = true

unfoldable pub after_free : (page : ℕ) → Bool × PageHeader → Pools → Pools
unfolding release_slab is_linked
after_free page (false, header) s = s
after_free page (true, header) s =
    let s' = record s { slab = update s.slab page header } in
    if (header.avail == header.capacity) && is_linked (s.node.prev page) (s.node.next page)
    then release_slab page s'
    else s'

unfoldable pub dyna_free : (target : ℕ) → Pools → Option Pools
unfolding after_free
dyna_free target s = do
  allocated ← is_allocated target s.pages
  let page = to_page_address (to_block_idx target)
  let freed = free_obj target page (s.slab page) >>= (λ r. some (after_free page r s))
  if allocated then freed else some s
