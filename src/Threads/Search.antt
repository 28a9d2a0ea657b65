-- ===== src/Threads/Search.antt =====
-- `find_thread`: a thread by its number.
use oscs25_labs.Base.{ℕ, zero, suc, Option, none, some, ◌==◌, if◌then◌else◌}
use oscs25_labs.Template.Links.{Ptr}
use oscs25_labs.Template.Queue.{Queue, queue_empty, queue_head}
use oscs25_labs.Threads.Defs.{System}
use oscs25_labs.Threads.Ending.{Location, running, in_run, in_wait}

unfoldable pub walk_on : (again : ℕ → Option ℕ) → (iter : ℕ) → Ptr → Option ℕ
walk_on again iter none = some iter
walk_on again iter (some follower) = again follower

-- The walk along a queue: the thread with the number wanted, or the last one. `none` is a lack of
-- fuel.
unfoldable pub walk : ℕ → (target_id iter : ℕ) → System → Option ℕ
walk zero target_id iter s = none
walk (suc n) target_id iter s =
    let on = walk_on (λ follower. walk n target_id follower s) iter (s.node.next iter) in
    if (s.thread iter).id == target_id then some iter else on

unfoldable pub check_id : (target_id : ℕ) → Option ℕ → System → Ptr
check_id target_id none s = none
check_id target_id (some iter) s = if (s.thread iter).id == target_id then some iter else none

-- The search of one queue. The walk meets each thread of the queue at most once.
unfoldable pub find_in_from : (target_id : ℕ) → (size : ℕ) → Ptr → System → Ptr
find_in_from target_id size none s = none
find_in_from target_id size (some head) s = check_id target_id (walk size target_id head s) s

unfoldable pub find_in : (target_id : ℕ) → Queue → System → Ptr
unfolding find_in_from check_id
find_in target_id que s =
    if queue_empty que then none else find_in_from target_id que.size (queue_head que) s

unfoldable pub located : Location → Ptr → Option (ℕ × Location)
located location none = none
located location (some t) = some (t, location)

unfoldable pub or_else : Option (ℕ × Location) → Option (ℕ × Location) → Option (ℕ × Location)
or_else none other = other
or_else (some found) other = some found

unfoldable pub find_thread : (target_id : ℕ) → System → Option (ℕ × Location)
unfolding located or_else
find_thread target_id s =
    if target_id == (s.thread s.current).id
    then some (s.current, running)
    else or_else (located in_run (find_in target_id s.run_queue s))
        (located in_wait (find_in target_id s.wait_queue s))
