-- ===== src/Except.antt =====
-- lib/exception/exception_c.c: the pools of interrupt tasks and of task queues, the queueing of a task
-- by its priority and the execution of a queue. Tasks and queues are identifiers, and a field of
-- them is a function. `none` as the result of a step is a read through `NULL` or a lack of fuel.
pub mod Exec
pub mod Handler
pub mod Insert
pub mod Irq
pub mod Preempt
pub mod Quiet
pub mod Ran
pub mod Sequence
pub mod Setup
pub mod Workload
mod Tests
use oscs25_labs.Base.{
  ℕ, zero, suc, ◌+◌, ◌-◌, ◌/◌, ◌%◌, ◌^◌, Bool, true, false, not, Option, none, some, ltb, leb, ◌==◌,
  ◌>>=◌, if◌then◌else◌, update, same_ptr,
}
use oscs25_labs.Template.Links.{Ptr, Links, node_init, list_add, list_remove}

-- `IrqPriority`
abbrev pub default_priority : ℕ
default_priority = 0

abbrev pub uart_priority : ℕ
uart_priority = 1

abbrev pub timer_priority : ℕ
timer_priority = 2

abbrev pub queue_pool_len : ℕ
queue_pool_len = 16

abbrev pub task_pool_len : ℕ
task_pool_len = 512

-- `ExceptTask` by field, and the free list of the tasks. A handler is its address, 0 for `NULL`.
pub record Tasks : Type 0 where
  pub next : ℕ → Ptr
  pub handler : ℕ → ℕ
  pub trap_frame : ℕ → ℕ
  pub node : Links
  pub priority : ℕ → ℕ
  pub task_free_list : Ptr

-- `ExceptQueue` by field, and the free list of the queues.
pub record Queues : Type 0 where
  pub preemptor : ℕ → Ptr
  pub head : ℕ → Ptr
  pub node : Links
  pub queue_free_list : Ptr

-- The running `ExceptWorkload` with the two pools.
pub record Except : Type 0 where
  pub tasks : Tasks
  pub queues : Queues
  pub base_queue : Ptr
  pub timer_mask : Bool
  pub uart_mask : Bool

unfoldable pub init_except_task : ℕ → Tasks → Tasks
init_except_task task s = record s {
  handler = update s.handler task 0;
  next = update s.next task none;
  trap_frame = update s.trap_frame task 0;
  node = node_init task s.node;
  priority = update s.priority task default_priority;
}

unfoldable pub init_except_queue : ℕ → Queues → Queues
init_except_queue que s = record s {
  head = update s.head que none;
  preemptor = update s.preemptor que none;
  node = node_init que s.node;
}

unfoldable pub take_task : Ptr → Tasks → Ptr × Tasks
take_task none s = (none, s)
take_task (some avail) s =
    let (_, node') = list_remove (some avail) s.node in
    (some avail, record s { task_free_list = s.node.next avail; node = node' })

unfoldable pub query_task : Tasks → Ptr × Tasks
query_task s = take_task s.task_free_list s

unfoldable pub take_queue : Ptr → Queues → Ptr × Queues
take_queue none s = (none, s)
take_queue (some avail) s =
    let (_, node') = list_remove (some avail) s.node in
    (some avail, record s { queue_free_list = s.node.next avail; node = node' })

unfoldable pub query_queue : Queues → Ptr × Queues
query_queue s = take_queue s.queue_free_list s

-- The address of the node of a `NULL` free list stands for no node.
unfoldable pub free_task : ℕ → Tasks → Tasks
free_task done s =
    let s' = init_except_task done s in
    record s' { node = list_add done none s'.task_free_list s'.node; task_free_list = some done }

unfoldable pub free_queue : ℕ → Queues → Queues
free_queue empty s =
    let s' = init_except_queue empty s in
    record s' {
      node = list_add empty none s'.queue_free_list s'.node;
      queue_free_list = some empty;
    }

-- The walk along the preempting queues: the last queue passed, and the one at which it stops.
unfoldable pub find_queue :
    ℕ → (priority : ℕ) → (prev_queue que_iter : Ptr) → Except → Option (Ptr × Ptr)
find_queue zero priority prev_queue que_iter s = none
find_queue (suc n) priority prev_queue none s = some (prev_queue, none)
find_queue (suc n) priority prev_queue (some que) s = do
  head ← s.queues.head que
  let on = find_queue n priority (some que) (s.queues.preemptor que) s in
      if ltb (s.tasks.priority head) priority then on else some (prev_queue, some que)

-- The walk along `next` from `prev_task` to the task behind which the new one is put.
unfoldable pub place_step : (again : ℕ → Option ℕ) → (task prev_task : ℕ) → Ptr → Tasks → Option ℕ
place_step again task prev_task none s = some prev_task
place_step again task prev_task (some follower) s =
    let on = again follower in
    if leb (s.priority task) (s.priority follower) then on else some prev_task

unfoldable pub find_place : ℕ → (task prev_task : ℕ) → Tasks → Option ℕ
find_place zero task prev_task s = none
find_place (suc n) task prev_task s =
    place_step (λ follower. find_place n task follower s) task prev_task (s.next prev_task) s

unfoldable pub link_task : (task prev_task : ℕ) → Tasks → Tasks
link_task task prev_task s = record s {
  next = update (update s.next task (s.next prev_task)) prev_task (some task);
}

unfoldable pub insert_task : ℕ → (task head : ℕ) → Tasks → Option Tasks
insert_task n task head s = do
  prev_task ← find_place n task head s
  some (link_task task prev_task s)

unfoldable pub link_queue : (prev_queue : Ptr) → ℕ → Queues → Queues
link_queue none que q = q
link_queue (some prev) que q = record q { preemptor = update q.preemptor prev (some que) }

-- A queue of its own for a task that preempts; that `query_queue` gives none is not tested.
unfoldable pub new_queue :
    (task : ℕ) → (prev_queue : Ptr) → Ptr × Queues → Except → Option (Ptr × Except)
new_queue task prev_queue (none, q) s = none
new_queue task prev_queue (some que, q) s = some (
  some que,
  record s {
    queues = link_queue prev_queue que (record q { head = update q.head que (some task) });
    base_queue = if same_ptr s.base_queue none then some que else s.base_queue;
  },
)

unfoldable pub enqueue_at :
    (task : ℕ) → (prev_queue que_iter : Ptr) → Except → Option (Ptr × Except)
enqueue_at task prev_queue none s = new_queue task prev_queue (query_queue s.queues) s
enqueue_at task prev_queue (some que) s = do
  head ← s.queues.head que
  tasks' ← insert_task (suc task_pool_len) task head s.tasks
  some (none, record s { tasks = tasks' })

-- The new queue, or `NULL` if the task goes into a queue that is there. A chain has a queue of the
-- pool at most once, and a queue a task, which bounds the two walks.
unfoldable pub enqueue_task : (task : ℕ) → Except → Option (Ptr × Except)
enqueue_task task s = do
  (prev_queue, que_iter) ←
      find_queue (suc queue_pool_len) (s.tasks.priority task) none s.base_queue s
  enqueue_at task prev_queue que_iter s

unfoldable pub init_workload : Except → Except
init_workload s = record s { base_queue = none; timer_mask = false; uart_mask = false }

-- The running workload takes the queue and the masks of the new one.
unfoldable pub swap_event_workload : Ptr → Bool → Bool → Except → Except
swap_event_workload base timer uart s = record s {
  base_queue = base;
  timer_mask = timer;
  uart_mask = uart;
}
