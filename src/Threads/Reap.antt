-- ===== src/Threads/Reap.antt =====
-- `kill_zombies`: the memory of the dead threads is freed.
use oscs25_labs.Base.{ℕ, zero, suc, Option, none, some, ◌>>=◌, update}
use oscs25_labs.Template.Links.{Ptr}
use oscs25_labs.Template.Queue.{queue_pop}
use oscs25_labs.Pages.{Pages, page_free}
use oscs25_labs.Regions.{RcRegion, rc_free}
use oscs25_labs.Except.Workload.{free_workload}
use oscs25_labs.Threads.Defs.{
  state_user_sp, state_kernel_sp, user_stack_size, kernel_stack_size, get_stack_top, System,
}

-- The part of `kill_zombies` for one thread; `none` is a write through a program that is `NULL`.
unfoldable pub reap_region : (t region : ℕ) → Option RcRegion × Pages → System → System
reap_region t r (none, pages') s = record s { pages = pages' }
reap_region t r (some region', pages') s = record s {
  pages = pages';
  region = update s.region r region';
}

unfoldable pub free_stacks : ℕ → System → System
free_stacks t s =
    let th = s.thread t in
    let user = get_stack_top (th.thread_state state_user_sp) user_stack_size in
    let kernel = get_stack_top (th.thread_state state_kernel_sp) kernel_stack_size in
    record s { pages = page_free kernel (page_free user s.pages) }

unfoldable pub reap_prog : ℕ → Ptr → System → Option System
reap_prog t none s = none
reap_prog t (some r) s =
    let s₁ = free_stacks t (reap_region t r (rc_free (s.region r) s.pages) s) in
    some (record s₁ { except = free_workload (s.thread t).excepts.base_queue s₁.except })

unfoldable pub reap : Ptr → System → Option System
reap none s = some s
reap (some t) s = reap_prog t (s.thread t).prog s

-- The loop of `kill_zombies` on `n` dead threads.
unfoldable pub reap_loop : ℕ → System → Option System
reap_loop zero s = some s
reap_loop (suc n) s =
    let (head, dead', node') = queue_pop s.dead_queue s.node in
    reap head (record s { dead_queue = dead'; node = node' }) >>= reap_loop n

unfoldable pub kill_zombies : System → Option System
kill_zombies s = reap_loop s.dead_queue.size s
