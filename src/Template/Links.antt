-- ===== src/Template/Links.antt =====
-- lib/template/list.c: the node of an intrusive list. A node stands for the object that embeds it:
-- `GET_CONTAINER` subtracts a fixed offset, so an object and its node share one identifier here. A
-- pointer to a node is `none` for `NULL`.
pub mod Seg
pub mod Splice
use oscs25_labs.Base.{ℕ, Option, none, some, update}

abbrev pub Ptr : Type 0
Ptr = Option ℕ

-- The two fields of every `ListNode` in memory.
pub record Links : Type 0 where
  pub prev : ℕ → Ptr
  pub next : ℕ → Ptr

unfoldable pub node_init : ℕ → Links → Links
node_init node s = record s { prev = update s.prev node none; next = update s.next node none }

-- `if(prev) prev->next = new;`
unfoldable pub set_next : Ptr → Ptr → Links → Links
set_next none v s = s
set_next (some p) v s = record s { next = update s.next p v }

-- `if(next) next->prev = new;`
unfoldable pub set_prev : Ptr → Ptr → Links → Links
set_prev none v s = s
set_prev (some p) v s = record s { prev = update s.prev p v }

unfoldable pub list_add : ℕ → Ptr → Ptr → Links → Links
unfolding set_next set_prev
list_add new prev next s =
    let linked = record s { next = update s.next new next; prev = update s.prev new prev } in
    set_prev next (some new) (set_next prev (some new) linked)

-- The result is the node that followed the target. `target->prev` and `target->next` are read again
-- for the second write, as the code does.
unfoldable pub list_remove : Ptr → Links → Ptr × Links
unfolding set_next set_prev node_init
list_remove none s = (none, s)
list_remove (some target) s =
    let s' = set_next (s.prev target) (s.next target) s in
    let s'' = set_prev (s'.next target) (s'.prev target) s' in
    (s''.next target, node_init target s'')
