-- ===== src/Except/Setup.antt =====
-- `init_exception`: the two pools, and the workload of the processor. The vector table is a register,
-- and `init_syscalls` has a state of its own.
use oscs25_labs.Base.{
  ℕ, zero, suc, ◌<◌, false, List, [], ◌∷◌, ◌≡◌, refl, sym, ◌∙◌, none, some, mem, Distinct, arith,
  cons-not-mem, subst,
}
use oscs25_labs.Template.Links.{list_add}
use oscs25_labs.Except.{
  Tasks, Queues, Except, task_pool_len, queue_pool_len, init_except_task, init_except_queue,
  free_task, init_workload, swap_event_workload,
}
use oscs25_labs.Except.Insert.{Chain}
use oscs25_labs.Except.Handler.{TaskPool}
use oscs25_labs.Except.Quiet.{Clear, free_task-Chain, free_task-Clear, not_head}

-- The loop over `task_pool`, downwards; an entry of the pool has its index as its name.
unfoldable pub init_tasks : ℕ → Tasks → Tasks
init_tasks zero s = s
init_tasks (suc i) s =
    let s' = init_except_task i s in
    init_tasks i
      (record s' { node = list_add i none s'.task_free_list s'.node; task_free_list = some i })

unfoldable pub init_queues : ℕ → Queues → Queues
init_queues zero s = s
init_queues (suc i) s =
    let s' = init_except_queue i s in
    init_queues i
      (record s' { node = list_add i none s'.queue_free_list s'.node; queue_free_list = some i })

unfoldable pub init_exception : Except → Except
init_exception s =
    let s' = init_workload (record s {
      tasks = init_tasks task_pool_len s.tasks;
      queues = init_queues queue_pool_len s.queues;
    }) in
    swap_event_workload s'.base_queue s'.timer_mask s'.uart_mask s'

-- The tasks below `n`, in front of `fs`.
abbrev pub down_to : (n : ℕ) → List ℕ → List ℕ
down_to zero fs = fs
down_to (suc n) fs = down_to n (n ∷ fs)

down_to_head : (n : ℕ) (fs : List ℕ) → (rest : List ℕ) × (down_to (suc n) fs ≡ 0 ∷ rest)
down_to_head zero fs = (fs, refl)
down_to_head (suc n) fs = down_to_head n (suc n ∷ fs)

-- All tasks are as `init_tasks` leaves them.
pub record IsPool (fs : List ℕ) (s : Tasks) : Type 0 where
  pub chain : Chain s.node.next s.task_free_list fs
  pub distinct : Distinct fs
  pub clear : Clear s

init_tasks-IsPool :
    (n : ℕ) (fs : List ℕ) (s : Tasks)
    → ((i : ℕ) → i < n → mem i fs ≡ false)
    → IsPool fs s
    → IsPool (down_to n fs) (init_tasks n s)
unfolding init_tasks free_task
init_tasks-IsPool zero fs s apart pool = pool
init_tasks-IsPool (suc n) fs s apart pool =
    let out = apart n (omega arith) in
    init_tasks-IsPool n (n ∷ fs) (free_task n s)
      (λ i lo. cons-not-mem i n fs (omega arith) (apart i (omega arith)))
      (record {
        chain = free_task-Chain n s fs pool.chain out;
        distinct = (out, pool.distinct);
        clear = free_task-Clear n s (not_head n s.node.next s.task_free_list fs pool.chain out);
      })

init_queues_head : (n : ℕ) (s : Queues) → (init_queues (suc n) s).queue_free_list ≡ some 0
unfolding init_queues
init_queues_head zero s = refl
init_queues_head (suc n) s = init_queues_head n _

-- No interrupt is handled; the task `t` and the queue `q` are the first of their pools.
pub record Idle (t q : ℕ) (ts : List ℕ) (s : Except) : Type 0 where
  pub pool : IsPool (t ∷ ts) s.tasks
  pub queue : s.queues.queue_free_list ≡ some q
  pub base : s.base_queue ≡ none

-- The pool of tasks as the next interrupt finds it.
pub Idle-TaskPool : (t q : ℕ) (ts : List ℕ) (s : Except) → Idle t q ts s → TaskPool t ts s.tasks
Idle-TaskPool t q ts s idle = record {
  first = idle.pool.chain.0;
  rest = idle.pool.chain.1;
  apart = idle.pool.distinct.0;
  front = (idle.pool.clear t idle.pool.chain.0).0;
  single = (idle.pool.clear t idle.pool.chain.0).1;
}

-- The pools are empty, as in memory that is zero.
pub init_exception-Idle :
    (s : Except)
    → s.tasks.task_free_list ≡ none
    → (ts : List ℕ) × (down_to task_pool_len [] ≡ 0 ∷ ts) × Idle 0 0 ts (init_exception s)
unfolding init_exception init_workload swap_event_workload
init_exception-Idle s empty =
    let (ts, e) = down_to_head 511 [] in
    let pool =
      init_tasks-IsPool task_pool_len [] s.tasks (λ i lo. refl)
        (record { chain = empty; distinct = tt; clear = λ a h. absurd (cc (sym empty ∙ h)) }) in
    (
      ts,
      e,
      record {
        pool = subst (λ (l : List ℕ). IsPool l (init_tasks task_pool_len s.tasks)) e pool;
        queue = init_queues_head 15 s.queues;
        base = refl;
      },
    )
