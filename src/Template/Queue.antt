-- ===== src/Template/Queue.antt =====
-- lib/template/queue.c: a FIFO of nodes with its two ends and its size. The links lie in the shared
-- store; a function returns the new queue and the new store.
pub mod Refine
use oscs25_labs.Base.{
  ℕ, ◌+◌, ◌-◌, ◌%◌, ◌^◌, Bool, Option, none, some, ◌==◌, same_ptr, if◌then◌else◌,
}
use oscs25_labs.Template.Links.{Ptr, Links, list_add, list_remove}

-- `size` is a `size_t`, an `unsigned int` of 32 bits.
pub record Queue : Type 0 where
  pub front : Ptr
  pub back : Ptr
  pub size : ℕ

pub queue_init : Queue
queue_init = record { front = none; back = none; size = 0 }

unfoldable pub queue_empty : Queue → Bool
queue_empty que = que.size == 0

unfoldable pub queue_head : Queue → Ptr
queue_head que = que.front

unfoldable pub get_queue_size : Queue → ℕ
get_queue_size que = que.size

unfoldable pub queue_push : Queue → ℕ → Links → Queue × Links
unfolding queue_empty
queue_push que new s =
    let size' = (que.size + 1) % 2 ^ 32 in
    if queue_empty que
    then (record { front = some new; back = some new; size = size' }, s)
    else (record que { back = some new; size = size' }, list_add new que.back none s)

-- `que->size--` wraps at 0.
unfoldable pub queue_pop : Queue → Links → Ptr × Queue × Links
unfolding queue_empty
queue_pop que s =
    let (rest, s') = list_remove que.front s in
    let size' = (que.size + 2 ^ 32 - 1) % 2 ^ 32 in
    let back' = if size' == 0 then none else que.back in
    if queue_empty que
    then (none, que, s)
    else (que.front, record { front = rest; back = back'; size = size' }, s')

-- A pointer to a queue is `none` for `NULL`.
unfoldable pub queue_erase : Option Queue → Ptr → Links → Option Queue × Links
unfolding queue_pop
queue_erase none target s = (none, s)
queue_erase (some que) none s = (some que, s)
queue_erase (some que) (some target) s =
    let (_, que', s') = queue_pop que s in
    let back' = if same_ptr (some target) que.back then s.prev target else que.back in
    let (_, s'') = list_remove (some target) s in
    if same_ptr (some target) que.front
    then (some que', s')
    else (some (record que { back = back'; size = (que.size + 2 ^ 32 - 1) % 2 ^ 32 }), s'')
