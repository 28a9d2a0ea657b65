-- ===== src/Except/Exec.antt =====
-- The execution of a queue of interrupt tasks, and `irq_handler`.
use oscs25_labs.Base.{
  ℕ, zero, suc, ◌/◌, ◌%◌, ◌^◌, true, Option, none, some, ◌==◌, ◌>>=◌, if◌then◌else◌, update,
  same_ptr,
}
use oscs25_labs.Template.Links.{Ptr}
use oscs25_labs.Except.{
  Tasks, Except, timer_priority, uart_priority, free_task, free_queue, query_task, enqueue_task,
}

-- The task whose handler has run leaves the queue for the pool.
unfoldable pub exec_done : (queue : ℕ) → Ptr → Except → Option Except
exec_done queue none s = none
exec_done queue (some done) s = some (record s {
  queues = record s.queues { head = update s.queues.head queue (s.tasks.next done) };
  tasks = free_task done s.tasks;
})

-- The call of a handler with interrupts enabled, in which other tasks may be queued and run; `W` is
-- what the handlers work on.
abbrev pub Run {ℓ} : Type ℓ → Type ℓ
Run W = (handler trap_frame : ℕ) → W × Except → W × Except

unfoldable pub exec_step {ℓ} :
    {W : Type ℓ}
    → (again : W × Except → Option (W × Except)) → Run W
    → (queue : ℕ) → (head : Ptr) → W × Except
    → Option (W × Except)
exec_step again run queue none (w, s) = some (w, s)
exec_step again run queue (some task) (w, s) =
    let (w', s') = run (s.tasks.handler task) (s.tasks.trap_frame task) (w, s) in
    exec_done queue (s'.queues.head queue) s' >>= (λ s''. again (w', s''))

unfoldable pub exec_loop {ℓ} :
    {W : Type ℓ} → Run W → ℕ → (queue : ℕ) → W × Except → Option (W × Except)
exec_loop run zero queue ws = none
exec_loop run (suc n) queue ws =
    exec_step (exec_loop run n queue) run queue (ws.1.queues.head queue) ws

unfoldable pub end_queue : (queue : ℕ) → Except → Except
end_queue queue s = record s {
  queues = free_queue queue s.queues;
  base_queue = if same_ptr s.base_queue (some queue) then none else s.base_queue;
}

unfoldable pub exec_queue {ℓ} :
    {W : Type ℓ} → Run W → ℕ → (queue : ℕ) → W × Except → Option (W × Except)
exec_queue run n queue ws = exec_loop run n queue ws >>= (λ r. some (r.0, end_queue queue r.1))

-- The task for a source of interrupts, masked until its handler runs; the two handlers are addresses.
unfoldable pub irq_task : (timer_handler uart_handler source task : ℕ) → Except → Option Except
irq_task timer_handler uart_handler source task s =
    let timer = record s {
      timer_mask = true;
      tasks = record s.tasks {
        handler = update s.tasks.handler task timer_handler;
        priority = update s.tasks.priority task timer_priority;
      };
    } in
    let uart = record s {
      uart_mask = true;
      tasks = record s.tasks {
        handler = update s.tasks.handler task uart_handler;
        priority = update s.tasks.priority task uart_priority;
      };
    } in
    if source / 2 ^ 1 % 2 == 1
    then some timer
    else if source / 2 ^ 8 % 2 == 1
    then some uart
    else none

unfoldable pub exec_new {ℓ} : {W : Type ℓ} → Run W → ℕ → W → Ptr × Except → Option (W × Except)
exec_new run n w (none, s) = some (w, s)
exec_new run n w (some queue, s) = exec_queue run n queue (w, s)

-- A source that is not known leaves the task out of the pool.
unfoldable pub routed {ℓ} :
    {W : Type ℓ} → Run W → ℕ → (task : ℕ) → W → Except → Option Except → Option (W × Except)
routed run n task w s none = some (w, s)
routed run n task w s (some s') = enqueue_task task s' >>= exec_new run n w

unfoldable pub handle_task {ℓ} :
    {W : Type ℓ}
    → Run W
    → (n timer_handler uart_handler source trap_frame : ℕ) → Ptr × Tasks
    → W × Except
    → Option (W × Except)
handle_task run n timer_handler uart_handler source trap_frame (none, tasks) (w, s) = some (w, s)
handle_task run n timer_handler uart_handler source trap_frame (some task, tasks) (w, s) =
    let s' = record s {
      tasks = record tasks { trap_frame = update tasks.trap_frame task trap_frame };
    } in
    routed run n task w s' (irq_task timer_handler uart_handler source task s')

unfoldable pub irq_handler {ℓ} :
    {W : Type ℓ}
    → Run W
    → (n timer_handler uart_handler source trap_frame : ℕ) → W × Except
    → Option (W × Except)
irq_handler run n timer_handler uart_handler source trap_frame (w, s) =
    handle_task run n timer_handler uart_handler source trap_frame (query_task s.tasks) (w, s)
