-- ===== src/Threads/Defs.antt =====
-- The state of the threads, their creation, the scheduler, and the end of a thread.
use oscs25_labs.Base.{
  ℕ, ◌+◌, ◌-◌, ◌/◌, ◌%◌, ◌^◌, Bool, true, false, not, ◌&&◌, none, some, ltb, ◌==◌, if◌then◌else◌,
  update,
}
use oscs25_labs.Template.Links.{Ptr, Links, node_init}
use oscs25_labs.Template.Queue.{Queue, queue_init, queue_push, queue_pop}
use oscs25_labs.Pages.{Pages, page_alloc}
use oscs25_labs.Regions.{RcRegion}
use oscs25_labs.Timer.{Timer, add_timer_event, config_core_timer}
use oscs25_labs.Except.{Except, swap_event_workload}

abbrev pub num_signals : ℕ
num_signals = 10

abbrev pub state_lr : ℕ
state_lr = 11

abbrev pub state_user_sp : ℕ
state_user_sp = 12

abbrev pub state_kernel_sp : ℕ
state_kernel_sp = 13

abbrev pub user_stack_size : ℕ
user_stack_size = 0x40000

abbrev pub kernel_stack_size : ℕ
kernel_stack_size = 0x10000

-- `GET_STACK_BOTTOM`, which a `size` below the address makes no more than a sum of 64 bits.
abbrev pub get_stack_bottom : (head size : ℕ) → ℕ
get_stack_bottom head size = (head + size + 2 ^ 64 - 16) % 2 ^ 64

-- `GET_STACK_TOP`, for a size that is a power of two.
abbrev pub get_stack_top : (ptr size : ℕ) → ℕ
get_stack_top ptr size = ptr - ptr % size

-- `ExceptWorkload` of a thread that does not run.
pub record Workload : Type 0 where
  pub base_queue : Ptr
  pub timer_mask : Bool
  pub uart_mask : Bool

-- The fields of `Thread`. `task`, `args` and the handlers are addresses, `prog` names a region, and
-- `thread_state` and `signal_handlers` take an index.
pub record Thread : Type 0 where
  pub id : ℕ
  pub priority : ℕ
  pub prog : Ptr
  pub task : ℕ
  pub args : ℕ
  pub thread_state : ℕ → ℕ
  pub excepts : Workload
  pub signal_handlers : ℕ → ℕ
  pub last_signal : ℕ
  pub alive : Bool

-- The static variables of the file, the threads with their nodes, the thread that runs, and the
-- state of the components that are called.
pub record System : Type 0 where
  pub thread : ℕ → Thread
  pub node : Links
  pub run_queue : Queue
  pub wait_queue : Queue
  pub dead_queue : Queue
  pub idle_thread : ℕ
  pub total_thread : ℕ
  pub switch_interval : ℕ
  pub current : ℕ
  pub except : Except
  pub timer : Timer
  pub pages : Pages
  pub region : ℕ → RcRegion

-- The addresses of the two functions that are stored.
pub record Code : Type 0 where
  pub thread_entry : ℕ
  pub switch_context : ℕ

-- The counts at the two calls of `get_timer` in `add_timer_event`, and whether it gets memory.
pub record Clock : Type 0 where
  pub current : ℕ
  pub later : ℕ
  pub allocated : Bool

abbrev pub set_thread : ℕ → Thread → System → System
set_thread t th s = record s { thread = update s.thread t th }

-- `init_workload`
abbrev pub new_workload : Workload
new_workload = record { base_queue = none; timer_mask = false; uart_mask = false }

-- The registers of a new thread, with the stacks that `page_alloc` gave.
unfoldable pub initial_state : (entry user_stack kernel_stack : ℕ) → ℕ → ℕ
initial_state entry user_stack kernel_stack i =
    if i == state_lr
    then entry
    else if i == state_user_sp
    then get_stack_bottom user_stack user_stack_size
    else if i == state_kernel_sp
    then get_stack_bottom kernel_stack kernel_stack_size
    else 0

-- `t` is what `dyna_alloc` returned for the thread; the pages that it may take for the thread and its
-- workload are left out. The user stack is allocated first.
unfoldable pub thread_init : Code → (t assigned args : ℕ) → (prog : Ptr) → System → System
thread_init code t assigned args prog s =
    let (user, pages₁) = page_alloc user_stack_size s.pages in
    let (kernel, pages₂) = page_alloc kernel_stack_size pages₁ in
    record s {
      total_thread = (s.total_thread + 1) % 2 ^ 32;
      pages = pages₂;
      thread = update s.thread t (record {
        id = s.total_thread;
        priority = 0;
        prog = prog;
        task = assigned;
        args = args;
        thread_state = initial_state code.thread_entry user kernel;
        excepts = new_workload;
        signal_handlers = λ _. 0;
        last_signal = num_signals;
        alive = true;
      });
    }

unfoldable pub enable_context_switch : Code → Clock → System → System
enable_context_switch code clock s =
    let (_, timer') =
      add_timer_event clock.allocated clock.current clock.later s.switch_interval
        code.switch_context 0 s.timer in
    record s { timer = timer' }

unfoldable pub push_run : (t : ℕ) → System → System
push_run t s =
    let (run', node') = queue_push s.run_queue t s.node in
    record s { run_queue = run'; node = node' }

unfoldable pub push_dead : (t : ℕ) → System → System
push_dead t s =
    let (dead', node') = queue_push s.dead_queue t s.node in
    record s { dead_queue = dead'; node = node' }

unfoldable pub make_thread : Code → Clock → (t assigned args : ℕ) → (prog : Ptr) → System → System
unfolding push_run
make_thread code clock t assigned args prog s =
    let s₁ = thread_init code t assigned args prog s in
    let s₂ = push_run t (record s₁ { node = node_init t s₁.node }) in
    if s₂.total_thread == 3 then enable_context_switch code clock s₂ else s₂

-- The start of the system: the identifiers of the two threads are those that `dyna_alloc` returned.
-- `freq` is the frequency that `get_timer` reads; `systemd` shares the running workload.
unfoldable pub init_thread_sys : Code → (freq idle systemd idle_task : ℕ) → System → System
init_thread_sys code freq idle systemd idle_task s =
    let s₁ = record s {
      run_queue = queue_init;
      wait_queue = queue_init;
      dead_queue = queue_init;
      switch_interval = freq / 2 ^ 5;
      idle_thread = idle;
    } in
    let s₂ = thread_init code idle idle_task 0 none s₁ in
    let s₃ = thread_init code systemd 0 0 none s₂ in record s₃ { current = systemd }

unfoldable pub thread_alive : ℕ → System → Bool
thread_alive t s = (s.thread t).alive

-- The running thread goes behind the others if it is alive and neither `idle_thread` nor `systemd`.
unfoldable pub requeue : System → System
unfolding push_run thread_alive
requeue s =
    if ltb 1 (s.thread s.current).id && thread_alive s.current s then push_run s.current s else s

-- The thread of the node, or the idle thread for `NULL`.
unfoldable pub choose : Ptr → System → ℕ
choose none s = s.idle_thread
choose (some t) s = t

unfoldable pub switch_thread : ℕ → System → System
switch_thread preemptor s =
    let w = (s.thread preemptor).excepts in
    record s {
      except = swap_event_workload w.base_queue w.timer_mask w.uart_mask s.except;
      timer = config_core_timer (not w.timer_mask) s.timer;
      current = preemptor;
    }

unfoldable pub schedule : System → System
unfolding requeue choose switch_thread
schedule s =
    let s₁ = requeue s in
    let (head, run', node') = queue_pop s₁.run_queue s₁.node in
    switch_thread (choose head s₁) (record s₁ { run_queue = run'; node = node' })

unfoldable pub curr_thread_regis_signal : (signal handler_func : ℕ) → System → System
curr_thread_regis_signal signal handler_func s =
    let curr = s.thread s.current in
    set_thread s.current
      (record curr { signal_handlers = update curr.signal_handlers signal handler_func }) s

-- The timer callback, up to the signal that is handled when the thread runs again.
unfoldable pub switch_context : Code → Clock → System → System
unfolding enable_context_switch
switch_context code clock s = schedule (enable_context_switch code clock s)
