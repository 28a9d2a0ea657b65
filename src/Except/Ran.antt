-- ===== src/Except/Ran.antt =====
-- A queue whose handlers are not interrupted: its tasks are run in their order and go back to the
-- pool, and so does the queue.
use oscs25_labs.Base.{
  ℕ, zero, suc, ◌<◌, true, false, List, [], ◌∷◌, ◌≡◌, refl, sym, ap, ◌∙◌, Option, none, some, ◌>>=◌,
  update, update_self, mem, Distinct, length, arith, ne_of_mem, mem-head, cons-mem, cons-not-mem,
  subst,
}
use oscs25_labs.Template.Links.{Ptr}
use oscs25_labs.Except.{Tasks, Queues, Except, free_task}
use oscs25_labs.Except.Insert.{Chain, Chain-frame}
use oscs25_labs.Except.Quiet.{
  Quiet, run_all, onto, run_all_same, free_task_next, free_task_call, free_task-Chain, Clear,
  free_task-Clear, not_head,
}
use oscs25_labs.Except.Exec.{Run, exec_done, exec_step, exec_loop}

-- The pool is clear behind a queue with a task, and behind an empty one if it was before.
abbrev pub ClearAfter : List ℕ → Tasks → Tasks → Type 0
ClearAfter [] s s' = Clear s → Clear s'
ClearAfter (t ∷ ts) s s' = Clear s'

after_task : (ts : List ℕ) (s s' : Tasks) → ClearAfter ts s s' → Clear s → Clear s'
after_task [] s s' after clear = after clear
after_task (t ∷ ts) s s' after clear = after

-- What is left of the state `s` when the tasks `ts` of a queue have run.
pub record Emptied (queue : ℕ) (ts fs : List ℕ) (s s' : Except) : Type 0 where
  pub pool : Chain s'.tasks.node.next s'.tasks.task_free_list (onto ts fs)
  pub clear : ClearAfter ts s.tasks s'.tasks
  pub empty : s'.queues.head queue ≡ none
  pub free_queues : s'.queues.queue_free_list ≡ s.queues.queue_free_list
  pub preemptors : s'.queues.preemptor ≡ s.queues.preemptor
  pub nodes : s'.queues.node ≡ s.queues.node
  pub base : s'.base_queue ≡ s.base_queue

exec_done_head :
    (queue t : ℕ) (s : Except)
    → s.queues.head queue ≡ some t
    → exec_done queue (s.queues.head queue) s
      ≡ some (record s {
        queues = record s.queues { head = update s.queues.head queue (s.tasks.next t) };
        tasks = free_task t s.tasks;
      })
unfolding exec_done
exec_done_head queue t s e = rw e refl

module _ {ℓ} {W : Type ℓ} (run : Run W) (act : ℕ → ℕ → W → W) (quiet : Quiet run act)
    (queue : ℕ) where
  -- The state behind one task.
  task_done : (t : ℕ) → W → Except → Except
  task_done t w s =
      let s' = (run (s.tasks.handler t) (s.tasks.trap_frame t) (w, s)).1 in
      record s' {
        queues = record s'.queues { head = update s'.queues.head queue (s'.tasks.next t) };
        tasks = free_task t s'.tasks;
      }

  exec_step_task :
      (again : W × Except → Option (W × Except)) (t : ℕ) (w : W) (s : Except)
      → s.queues.head queue ≡ some t
      → exec_step again run queue (s.queues.head queue) (w, s)
        ≡ again (act (s.tasks.handler t) (s.tasks.trap_frame t) w, task_done t w s)
  unfolding exec_step task_done
  exec_step_task again t w s e =
      let h = s.tasks.handler t in
      let f = s.tasks.trap_frame t in
      let s' = (run h f (w, s)).1 in
      let head : s'.queues.head queue ≡ some t =
        ap (λ (q : Queues). q.head queue) (quiet.queues h f w s) ∙ e in
      let ended = exec_done_head queue t s' head in
      let start : exec_step again run queue (s.queues.head queue) (w, s)
          ≡ exec_step again run queue (some t) (w, s) =
        ap (λ (p : Ptr). exec_step again run queue p (w, s)) e in
      start
      ∙ ap (λ (o : Option Except). o >>= (λ s''. again ((run h f (w, s)).0, s''))) ended
      ∙ ap (λ (w' : W). again (w', task_done t w s)) (quiet.world h f w s)

  task_done_tasks : (t : ℕ) (w : W) (s : Except) → (task_done t w s).tasks ≡ free_task t s.tasks
  unfolding task_done
  task_done_tasks t w s =
      ap (free_task t) (quiet.tasks (s.tasks.handler t) (s.tasks.trap_frame t) w s)

  task_done_head :
      (t : ℕ) (w : W) (s : Except) → (task_done t w s).queues.head queue ≡ s.tasks.next t
  unfolding task_done
  task_done_head t w s =
      let s' = (run (s.tasks.handler t) (s.tasks.trap_frame t) (w, s)).1 in
      update_self s'.queues.head queue (s'.tasks.next t)
      ∙ ap (λ (k : Tasks). k.next t) (quiet.tasks (s.tasks.handler t) (s.tasks.trap_frame t) w s)

  task_done_rest :
      (t : ℕ) (w : W) (s : Except)
      → ((task_done t w s).queues.queue_free_list ≡ s.queues.queue_free_list)
        × ((task_done t w s).queues.preemptor ≡ s.queues.preemptor)
        × ((task_done t w s).queues.node ≡ s.queues.node)
        × ((task_done t w s).base_queue ≡ s.base_queue)
  unfolding task_done
  task_done_rest t w s =
      let q = quiet.queues (s.tasks.handler t) (s.tasks.trap_frame t) w s in
      (
        ap (λ (k : Queues). k.queue_free_list) q,
        ap (λ (k : Queues). k.preemptor) q,
        ap (λ (k : Queues). k.node) q,
        quiet.base_queue (s.tasks.handler t) (s.tasks.trap_frame t) w s,
      )

  exec_step-none :
      (again : W × Except → Option (W × Except)) (w : W) (s : Except)
      → s.queues.head queue ≡ none
      → exec_step again run queue (s.queues.head queue) (w, s) ≡ some (w, s)
  unfolding exec_step
  exec_step-none again w s e = rw e refl

  pub exec_loop-Emptied :
      (ts fs : List ℕ) (n : ℕ) (w : W) (s : Except)
      → length ts < n
      → Chain s.tasks.next (s.queues.head queue) ts
      → Distinct ts
      → Chain s.tasks.node.next s.tasks.task_free_list fs
      → ((a : ℕ) → mem a ts ≡ true → mem a fs ≡ false)
      → (s' : Except) × (exec_loop run n queue (w, s) ≡ some (run_all act s.tasks ts w, s'))
        × Emptied queue ts fs s s'
  unfolding exec_loop
  exec_loop-Emptied ts fs zero w s fuel chain distinct free apart = absurd (omega arith)
  exec_loop-Emptied [] fs (suc n) w s fuel chain distinct free apart = (
    s,
    exec_step-none (λ x. exec_loop run n queue x) w s chain,
    record {
      pool = free;
      clear = λ c. c;
      empty = chain;
      free_queues = refl;
      preemptors = refl;
      nodes = refl;
      base = refl;
    },
  )
  exec_loop-Emptied (t ∷ ts) fs (suc n) w s fuel (head, chain) distinct free apart =
      let h = s.tasks.handler t in
      let f = s.tasks.trap_frame t in
      let d = task_done t w s in
      let tasks = task_done_tasks t w s in
      let rest = task_done_rest t w s in
      let out = apart t (mem-head t ts) in
      let chain' : Chain d.tasks.next (d.queues.head queue) ts =
        subst (λ (k : Tasks). Chain k.next (d.queues.head queue) ts) (sym tasks)
          (subst (λ (p : Ptr). Chain (free_task t s.tasks).next p ts) (sym (task_done_head t w s))
            (Chain-frame s.tasks.next (free_task t s.tasks).next (s.tasks.next t) ts
              (λ y m. free_task_next t s.tasks y (ne_of_mem y t ts m distinct.0)) chain)) in
      let free' : Chain d.tasks.node.next d.tasks.task_free_list (t ∷ fs) =
        subst (λ (k : Tasks). Chain k.node.next k.task_free_list (t ∷ fs)) (sym tasks)
          (free_task-Chain t s.tasks fs free out) in
      let apart' : (a : ℕ) → mem a ts ≡ true → mem a (t ∷ fs) ≡ false =
        λ a m. cons-not-mem a t fs (ne_of_mem a t ts m distinct.0) (apart a (cons-mem a t ts m)) in
      let calls : run_all act d.tasks ts (act h f w) ≡ run_all act s.tasks ts (act h f w) =
        run_all_same act s.tasks d.tasks ts (act h f w) (λ y m.
          let other = free_task_call t s.tasks y (ne_of_mem y t ts m distinct.0) in
          (
            ap (λ (k : Tasks). k.handler y) tasks ∙ other.0,
            ap (λ (k : Tasks). k.trap_frame y) tasks ∙ other.1,
          )) in
      let cleared : Clear d.tasks = subst Clear (sym tasks) (
        free_task-Clear t s.tasks
          (not_head t s.tasks.node.next s.tasks.task_free_list fs free out)) in
      let (s', ran, left) =
        exec_loop-Emptied ts (t ∷ fs) n (act h f w) d (omega arith) chain' distinct.1 free'
          apart' in
      (
        s',
        exec_step_task (λ x. exec_loop run n queue x) t w s head
            ∙ ran
            ∙ ap (λ (v : W). some (v, s')) calls,
        record {
          pool = left.pool;
          clear = after_task ts d.tasks s'.tasks left.clear cleared;
          empty = left.empty;
          free_queues = left.free_queues ∙ rest.0;
          preemptors = left.preemptors ∙ rest.1;
          nodes = left.nodes ∙ rest.2;
          base = left.base ∙ rest.3;
        },
      )
