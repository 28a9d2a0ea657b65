-- ===== src/Except/Handler.antt =====
-- `irq_handler` from the interrupt to the return: the task it takes, the queue it gets, and what is
-- left of both.
use oscs25_labs.Base.{
  ℕ, ◌<◌, ◌/◌, ◌%◌, ◌^◌, Bool, true, false, List, [], ◌∷◌, ◌≡◌, ◌≢◌, refl, sym, ap, ap₂, ◌∙◌,
  Option, none, some, ◌==◌, if◌then◌else◌, update, update-ne, update_self, mem, ==_iff, arith,
  subst, Bool-cases, inl, inr, ne_of_mem,
}
use oscs25_labs.Template.Links.{Ptr, Links, list_remove, node_init, set_prev, set_next}
use oscs25_labs.Except.{
  Tasks, Queues, Except, timer_priority, uart_priority, query_task, take_task, find_queue,
}
use oscs25_labs.Except.Insert.{Chain, Chain-frame}
use oscs25_labs.Except.Exec.{Run, exec_new, irq_task, routed, handle_task, irq_handler}
use oscs25_labs.Except.Quiet.{Quiet}
use oscs25_labs.Except.Irq.{Ran, exec_queue-Ran, entered, enqueue_task-entered, entered_head}

-- The handler of a source and its priority; the timer comes first.
abbrev pub answer : (timer_handler uart_handler source : ℕ) → Option (ℕ × ℕ)
answer timer_handler uart_handler source =
    if source / 2 ^ 1 % 2 == 1
    then some (timer_handler, timer_priority)
    else if source / 2 ^ 8 % 2 == 1
    then some (uart_handler, uart_priority)
    else none

-- The first task `t` of a pool with the tasks `fs` behind it.
pub record TaskPool (t : ℕ) (fs : List ℕ) (s : Tasks) : Type 0 where
  pub first : s.task_free_list ≡ some t
  pub rest : Chain s.node.next (s.node.next t) fs
  pub apart : mem t fs ≡ false
  pub front : s.node.prev t ≡ none
  pub single : s.next t ≡ none

-- The task `t` is taken from the pool and set up for its handler.
pub record Armed (t : ℕ) (fs : List ℕ) (handler priority frame : ℕ) (s s' : Except) : Type 0 where
  pub handler_set : s'.tasks.handler t ≡ handler
  pub priority_set : s'.tasks.priority t ≡ priority
  pub frame_set : s'.tasks.trap_frame t ≡ frame
  pub pool : Chain s'.tasks.node.next s'.tasks.task_free_list fs
  pub single : s'.tasks.next t ≡ none
  pub others : (y : ℕ) → y ≢ t → s'.tasks.priority y ≡ s.tasks.priority y
  pub queues_kept : s'.queues ≡ s.queues
  pub base_kept : s'.base_queue ≡ s.base_queue

taken_next :
    (t : ℕ) (p : Ptr) (s : Links)
    → s.prev t ≡ none
    → s.next t ≡ p
    → (list_remove (some t) s).1.next ≡ update s.next t none
unfolding list_remove set_next set_prev node_init
taken_next t none s front e = rw (front, e) refl
taken_next t (some y) s front e = rw (front, e) refl

taken : (t frame : ℕ) → Except → Except
taken t frame s =
    let tasks = (take_task (some t) s.tasks).1 in
    record s { tasks = record tasks { trap_frame = update tasks.trap_frame t frame } }

taken_pool :
    (t frame : ℕ) (fs : List ℕ) (s : Except)
    → TaskPool t fs s.tasks
    → Chain (taken t frame s).tasks.node.next (taken t frame s).tasks.task_free_list fs
unfolding taken take_task
taken_pool t frame fs s pool =
    let next = s.tasks.node.next in
    let removed = taken_next t (next t) s.tasks.node pool.front refl in
    subst (λ (f : ℕ → Ptr). Chain f (next t) fs) (sym removed)
      (Chain-frame next (update next t none) (next t) fs
        (λ y m. update-ne next t none y (ne_of_mem y t fs m pool.apart)) pool.rest)

armed : (t handler priority frame : ℕ) → Bool → Bool → Except → Except
armed t handler priority frame timer uart s =
    let s' = taken t frame s in
    record s' {
      timer_mask = timer;
      uart_mask = uart;
      tasks = record s'.tasks {
        handler = update s'.tasks.handler t handler;
        priority = update s'.tasks.priority t priority;
      };
    }

armed-Armed :
    (t frame h p : ℕ) (timer uart : Bool) (fs : List ℕ) (s : Except)
    → TaskPool t fs s.tasks
    → Armed t fs h p frame s (armed t h p frame timer uart s)
unfolding armed taken take_task
armed-Armed t frame h p timer uart fs s pool = record {
  handler_set = update_self s.tasks.handler t h;
  priority_set = update_self s.tasks.priority t p;
  frame_set = update_self s.tasks.trap_frame t frame;
  pool = taken_pool t frame fs s pool;
  single = pool.single;
  others = λ y ne. update-ne s.tasks.priority t p y ne;
  queues_kept = refl;
  base_kept = refl;
}

answer-Armed :
    (t h p frame : ℕ) (o : Option (ℕ × ℕ)) (c : ℕ × ℕ) (fs : List ℕ) (s s' : Except)
    → o ≡ some c
    → o ≡ some (h, p)
    → Armed t fs c.0 c.1 frame s s'
    → Armed t fs h p frame s s'
answer-Armed t h p frame o c fs s s' e known r =
    let same : ◌≡◌ {A = Option (ℕ × ℕ)} (some c) (some (h, p)) = sym e ∙ known in
    subst (λ (x : ℕ × ℕ). Armed t fs x.0 x.1 frame s s') (cc same) r

-- A source that is known, with the handler and the priority of its task.
irq_task-Armed :
    (timer uart source t frame h p : ℕ) (fs : List ℕ) (s : Except)
    → TaskPool t fs s.tasks
    → answer timer uart source ≡ some (h, p)
    → (s' : Except) × (irq_task timer uart source t (taken t frame s) ≡ some s')
      × Armed t fs h p frame s s'
unfolding irq_task armed taken
irq_task-Armed timer uart source t frame h p fs s pool known =
    let reply = answer timer uart source in
    elim (Bool-cases (source / 2 ^ 1 % 2 == 1)) [
      | inl by_timer ↦ (
        armed t timer timer_priority frame true s.uart_mask s,
        rw by_timer refl,
        answer-Armed t h p frame reply (timer, timer_priority) fs s _ (rw by_timer refl) known
            (armed-Armed t frame timer timer_priority true s.uart_mask fs s pool),
      )
      | inr other ↦ elim (Bool-cases (source / 2 ^ 8 % 2 == 1)) [
        | inl by_uart ↦ (
          armed t uart uart_priority frame s.timer_mask true s,
          rw (other, by_uart) refl,
          answer-Armed t h p frame reply (uart, uart_priority) fs s _ (rw (other, by_uart) refl)
              known (armed-Armed t frame uart uart_priority s.timer_mask true fs s pool),
        )
        | inr unknown ↦ let lost : reply ≡ none = rw (other, unknown) refl in cc
      ]
    ]

-- The queue walk of an interrupt that preempts: it ends at the last of the queues, `prev`.
module _ {ℓ} {W : Type ℓ} (run : Run W) (act : ℕ → ℕ → W → W) (quiet : Quiet run act) where
  -- The task that is set up gets the queue `q`, and runs in it.
  routed-Ran :
      (t q h p frame n : ℕ) (prev : Ptr) (fs : List ℕ) (w : W) (s lost s' : Except)
      → 1 < n
      → Armed t fs h p frame s s'
      → mem t fs ≡ false
      → s.queues.queue_free_list ≡ some q
      → find_queue 17 p none s.base_queue s' ≡ some (prev, none)
      → (s'' : Except) × (routed run n t w lost (some s') ≡ some (act h frame w, s''))
        × Ran q (t ∷ []) fs (entered t q prev s') s''
  unfolding routed exec_new
  routed-Ran t q h p frame n prev fs w s lost s' fuel a out free found =
      let free' : s'.queues.queue_free_list ≡ some q =
        ap (λ (k : Queues). k.queue_free_list) a.queues_kept ∙ free in
      let found' : find_queue 17 (s'.tasks.priority t) none s'.base_queue s' ≡ some (prev, none) =
        ap₂ (λ (x : ℕ) (b : Ptr). find_queue 17 x none b s') a.priority_set a.base_kept ∙ found in
      let put = enqueue_task-entered t q prev s' free' found' in
      let e = entered t q prev s' in
      let chain : Chain e.tasks.next (e.queues.head q) (t ∷ []) =
        (entered_head t q prev s', a.single) in
      let pool : Chain e.tasks.node.next e.tasks.task_free_list fs = a.pool in
      let apart : (y : ℕ) → mem y (t ∷ []) ≡ true → mem y fs ≡ false =
        λ y m. ground (arith, ==_iff y t) in
      let (s'', ran, left) =
        exec_queue-Ran run act quiet q (t ∷ []) fs n w e fuel chain (refl, tt) pool apart in
      let called : act (e.tasks.handler t) (e.tasks.trap_frame t) w ≡ act h frame w =
        ap₂ (λ (x y : ℕ). act x y w) a.handler_set a.frame_set in
      (s'', rw put (ran ∙ ap (λ (v : W). some (v, s'')) called), left)

  -- The queue walk depends on the tasks of the queues that are there alone.
  pub handler-Ran :
      (timer uart source t q h p frame n : ℕ) (prev : Ptr) (fs : List ℕ) (w : W) (s : Except)
      → 1 < n
      → TaskPool t fs s.tasks
      → answer timer uart source ≡ some (h, p)
      → s.queues.queue_free_list ≡ some q
      → ((s' : Except)
          → Armed t fs h p frame s s'
          → find_queue 17 p none s.base_queue s' ≡ some (prev, none))
      → (s' s'' : Except) × (irq_handler run n timer uart source frame (w, s)
          ≡ some (act h frame w, s''))
        × Armed t fs h p frame s s'
        × Ran q (t ∷ []) fs (entered t q prev s') s''
  unfolding irq_handler query_task handle_task taken take_task
  handler-Ran timer uart source t q h p frame n prev fs w s fuel pool known free walk =
      let (s', task_set, a) = irq_task-Armed timer uart source t frame h p fs s pool known in
      let (s'', ran, left) =
        routed-Ran t q h p frame n prev fs w s (taken t frame s) s' fuel a pool.apart free
          (walk s' a) in
      let start : irq_handler run n timer uart source frame (w, s)
          ≡ handle_task run n timer uart source frame (take_task (some t) s.tasks) (w, s) =
        ap (λ (f : Ptr). handle_task run n timer uart source frame (take_task f s.tasks) (w, s))
          pool.first in
      (s', s'', start ∙ rw task_set ran, a, left)
