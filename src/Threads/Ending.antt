-- ===== src/Threads/Ending.antt =====
-- The end of a thread, by itself or by another one.
use oscs25_labs.Base.{ℕ, Bool, true, false, not, Option, none, some, ◌==◌, if◌then◌else◌}
use oscs25_labs.Template.Links.{Links}
use oscs25_labs.Template.Queue.{Queue, queue_erase}
use oscs25_labs.Timer.{config_core_timer}
use oscs25_labs.Threads.Defs.{System, set_thread, push_dead, schedule}

-- `config_core_timer(!mask)`: the mask of the running workload, and the register of the timer.
unfoldable pub mask_timer : Bool → System → System
mask_timer mask s =
    let e = s.except in
    record s {
      except = record e { timer_mask = mask };
      timer = config_core_timer (not mask) s.timer;
    }

unfoldable pub set_dead : ℕ → System → System
set_dead t s = let th = s.thread t in set_thread t (record th { alive = false }) s

unfoldable pub kill_curr_thread : System → System
unfolding push_dead set_dead mask_timer
kill_curr_thread s =
    schedule (mask_timer false (push_dead s.current (set_dead s.current (mask_timer true s))))

-- Where `find_thread` finds a thread: it runs, or it is in one of the two queues.
pub data Location : Type 0 where
  running : Location
  in_run : Location
  in_wait : Location

unfoldable pub run_erased : Option Queue × Links → System → System
run_erased (none, node') s = s
run_erased (some run', node') s = record s { run_queue = run'; node = node' }

unfoldable pub wait_erased : Option Queue × Links → System → System
wait_erased (none, node') s = s
wait_erased (some wait', node') s = record s { wait_queue = wait'; node = node' }

-- `queue_erase` at a location, which is `NULL` for a thread that runs.
unfoldable pub erase_from : Location → ℕ → System → System
erase_from running t s = s
erase_from in_run t s = run_erased (queue_erase (some s.run_queue) (some t) s.node) s
erase_from in_wait t s = wait_erased (queue_erase (some s.wait_queue) (some t) s.node) s

unfoldable pub kill_thread : (target : ℕ) → Location → System → System
unfolding set_dead erase_from push_dead
kill_thread target location s =
    if target == s.current
    then kill_curr_thread s
    else push_dead target (erase_from location target (set_dead target s))
