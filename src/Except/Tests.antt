-- ===== src/Except/Tests.antt =====
-- The tasks 0 and 1 wait in a queue, and the task 2 is put between them.
use oscs25_labs.Base.{ℕ, List, [], ◌∷◌, refl, none, some, arith, update, false, ◌≡◌, ==_iff}
use oscs25_labs.Template.Links.{Ptr}
use oscs25_labs.Except.{Except, Tasks, insert_task}
use oscs25_labs.Except.Insert.{Inserted, insert_task-Inserted}
use oscs25_labs.Except.Exec.{Run, exec_queue, irq_handler}
use oscs25_labs.Except.Quiet.{Quiet}
use oscs25_labs.Except.Irq.{Ran, exec_queue-Ran}
use oscs25_labs.Except.Handler.{TaskPool}
use oscs25_labs.Except.Preempt.{irq_handler-dangling}
use oscs25_labs.Except.Setup.{down_to, Idle, init_exception}
use oscs25_labs.Except.Sequence.{Interrupts, interrupts, init_exception-interrupts}
use oscs25_labs.Except.{task_pool_len}
use oscs25_labs.Except.{find_queue}

abbrev tasks : Tasks
tasks = record {
  next = update (λ _. none) 0 (some 1);
  handler = λ _. 0x1000;
  trap_frame = λ _. 0;
  node = record { prev = λ _. none; next = λ _. none };
  priority = update (update (λ _. 1) 0 2) 1 0;
  task_free_list = none;
}

insert_task-Inserted_example : Inserted tasks 2 0 (1 ∷ []) (insert_task 3 2 0 tasks)
insert_task-Inserted_example =
    insert_task-Inserted (1 ∷ []) 3 2 0 tasks (omega arith) (refl, (refl, tt)) refl (refl, refl)

-- A free queue, lost with a workload that has none.
abbrev except : Except
except = record {
  tasks = tasks;
  queues = record {
    preemptor = λ _. none;
    head = λ _. none;
    node = record { prev = λ _. none; next = λ _. none };
    queue_free_list = some 3;
  };
  base_queue = none;
  timer_mask = false;
  uart_mask = false;
}

-- The handlers that have run, with their trap frames, the last one first.
abbrev Log : Type 0
Log = List (ℕ × ℕ)

abbrev log : (handler trap_frame : ℕ) → Log → Log
log handler trap_frame entries = (handler, trap_frame) ∷ entries

abbrev run_logged : Run Log
run_logged handler trap_frame (entries, s) = (log handler trap_frame entries, s)

abbrev run_logged_quiet : Quiet run_logged log
run_logged_quiet = record {
  world = λ handler frame w s. refl;
  tasks = λ handler frame w s. refl;
  queues = λ handler frame w s. refl;
  base_queue = λ handler frame w s. refl;
}

-- The task 5 in its pool, the queue 3 in its own, and nothing to run.
abbrev waiting : Except
waiting = record except { tasks = record tasks { next = λ _. none; task_free_list = some 5 } }

-- The queue 7 with the tasks 0 and 1, and the task 5 in its pool.
abbrev busy : Except
busy = record waiting {
  tasks = record tasks { task_free_list = some 5 };
  queues = record except.queues { head = update (λ _. none) 7 (some 1) };
  base_queue = some 7;
}

abbrev busy_pool : TaskPool 5 [] busy.tasks
busy_pool = record { first = refl; rest = refl; apart = refl; front = refl; single = refl }

exec_queue-Ran_example :
    (s' : Except) × (exec_queue run_logged 2 7 ([], busy) ≡ some ((0x1000, 0) ∷ [], s'))
    × Ran 7 (1 ∷ []) (5 ∷ []) busy s'
exec_queue-Ran_example =
    exec_queue-Ran run_logged log run_logged_quiet 7 (1 ∷ []) (5 ∷ []) 2 [] busy (omega arith)
      (refl, refl) (refl, tt) (refl, refl) (λ a m. ground (arith, ==_iff a 1, ==_iff a 5))

-- A byte at the UART, and then the timer.
abbrev two_interrupts : Interrupts
two_interrupts = (256, 0x4000) ∷ (2, 0x5000) ∷ []

init_exception-interrupts_example :
    (s' : Except) × (ts : List ℕ) × (interrupts 0x100 0x200 run_logged 2 two_interrupts
        ([], init_exception except)
      ≡ some ((0x100, 0x5000) ∷ (0x200, 0x4000) ∷ [], s'))
    × (down_to task_pool_len [] ≡ 0 ∷ ts)
    × Idle 0 0 ts s'
init_exception-interrupts_example =
    init_exception-interrupts run_logged log run_logged_quiet 0x100 0x200 2 (omega arith)
      two_interrupts [] except (λ e. cc, (λ e. cc, tt)) refl

irq_handler-dangling_example :
    (s' : Except) × (irq_handler run_logged 2 0x100 0x200 2 0x4000 ([], busy)
      ≡ some ((0x100, 0x4000) ∷ [], s'))
    × (s'.queues.queue_free_list ≡ some 3)
    × (s'.base_queue ≡ some 7)
    × (s'.queues.preemptor 7 ≡ some 3)
    × ((k priority : ℕ) (prev : Ptr) → find_queue k priority prev (s'.queues.preemptor 7) s' ≡ none)
irq_handler-dangling_example =
    irq_handler-dangling run_logged log run_logged_quiet 0x100 0x200 2 5 3 7 1 0x100 2 0x4000 2 []
      [] busy (omega arith) busy_pool refl refl refl refl refl (omega arith) (omega arith)
      (omega arith)
