-- ===== src/Except/Irq.antt =====
-- An interrupt that gets a queue of its own: its handler runs, and its task and its queue go back.
use oscs25_labs.Base.{
  ℕ, ◌<◌, true, false, List, ◌≡◌, ◌≢◌, refl, ap, ◌∙◌, none, some, if◌then◌else◌, update, update-ne,
  update_self, mem, length, same_ptr, Distinct,
}
use oscs25_labs.Template.Links.{Ptr}
use oscs25_labs.Except.{
  Except, init_except_queue, free_queue, query_queue, take_queue, link_queue, new_queue, enqueue_at,
  enqueue_task, find_queue,
}
use oscs25_labs.Except.Insert.{Chain}
use oscs25_labs.Except.Exec.{Run, end_queue, exec_queue}
use oscs25_labs.Except.Quiet.{Quiet, run_all, onto}
use oscs25_labs.Except.Ran.{ClearAfter, Emptied, exec_loop-Emptied}

-- What is left of `s` when the queue has run: the tasks are in the pool in front of those there, the
-- queue is at the head of its pool, and `base_queue` is `NULL` if it was this one.
pub record Ran (queue : ℕ) (ts fs : List ℕ) (s s' : Except) : Type 0 where
  pub pool : Chain s'.tasks.node.next s'.tasks.task_free_list (onto ts fs)
  pub clear : ClearAfter ts s.tasks s'.tasks
  pub queue_pool : s'.queues.queue_free_list ≡ some queue
  pub empty : s'.queues.head queue ≡ none
  pub base : s'.base_queue ≡ (if same_ptr s.base_queue (some queue) then none else s.base_queue)
  pub preemptors :
      (other : ℕ) → other ≢ queue → s'.queues.preemptor other ≡ s.queues.preemptor other

end_queue-Ran :
    (queue : ℕ) (ts fs : List ℕ) (s s' : Except)
    → Emptied queue ts fs s s'
    → Ran queue ts fs s (end_queue queue s')
unfolding end_queue free_queue init_except_queue
end_queue-Ran queue ts fs s s' e = record {
  pool = e.pool;
  clear = e.clear;
  queue_pool = refl;
  empty = update_self s'.queues.head queue none;
  base = ap (λ (b : Ptr). if same_ptr b (some queue) then none else b) e.base;
  preemptors = λ other ne.
      update-ne s'.queues.preemptor queue none other ne
      ∙ ap (λ (f : ℕ → Ptr). f other) e.preemptors;
}

module _ {ℓ} {W : Type ℓ} (run : Run W) (act : ℕ → ℕ → W → W) (quiet : Quiet run act) where
  -- A queue with the tasks `ts`, whose handlers are not interrupted: the call returns, with rounds for
  -- all tasks and one more, each handler has run once with the trap frame of its task, in the order
  -- of the queue, the tasks and the queue are back in their pools, and no queue is left behind.
  pub exec_queue-Ran :
      (queue : ℕ) (ts fs : List ℕ) (n : ℕ) (w : W) (s : Except)
      → length ts < n
      → Chain s.tasks.next (s.queues.head queue) ts
      → Distinct ts
      → Chain s.tasks.node.next s.tasks.task_free_list fs
      → ((a : ℕ) → mem a ts ≡ true → mem a fs ≡ false)
      → (s' : Except) × (exec_queue run n queue (w, s) ≡ some (run_all act s.tasks ts w, s'))
        × Ran queue ts fs s s'
  unfolding exec_queue
  exec_queue-Ran queue ts fs n w s fuel chain distinct free apart =
      let (s', ran, left) =
        exec_loop-Emptied run act quiet queue ts fs n w s fuel chain distinct free apart in
      (end_queue queue s', rw ran refl, end_queue-Ran queue ts fs s s' left)

-- The state with a new queue `q` for the task `t`, behind the queue `prev`.
abbrev pub entered : (t q : ℕ) → (prev : Ptr) → Except → Except
entered t q prev s =
    let qs = (query_queue s.queues).1 in
    record s {
      queues = link_queue prev q (record qs { head = update qs.head q (some t) });
      base_queue = if same_ptr s.base_queue none then some q else s.base_queue;
    }

pub enqueue_task-entered :
    (t q : ℕ) (prev : Ptr) (s : Except)
    → s.queues.queue_free_list ≡ some q
    → find_queue 17 (s.tasks.priority t) none s.base_queue s ≡ some (prev, none)
    → enqueue_task t s ≡ some (some q, entered t q prev s)
unfolding enqueue_task enqueue_at new_queue query_queue take_queue
enqueue_task-entered t q prev s free found = rw (found, free) refl

pub entered_head : (t q : ℕ) (prev : Ptr) (s : Except) → (entered t q prev s).queues.head q ≡ some t
unfolding link_queue
entered_head t q none s = update_self ((query_queue s.queues).1.head) q (some t)
entered_head t q (some b) s = update_self ((query_queue s.queues).1.head) q (some t)
