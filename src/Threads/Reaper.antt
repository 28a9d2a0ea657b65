-- ===== src/Threads/Reaper.antt =====
-- `kill_zombies`: the end of the dead threads.
use oscs25_labs.Base.{
  ℕ, zero, suc, ◌≡◌, refl, sym, ap, ◌∙◌, List, [], ◌∷◌, Option, none, some, length, arith,
  Disjoint-sym, ◌>>=◌, not-mem-cons, cons-not-mem, cons-mem,
}
use native.Mathlib.Decide.{ℕ_discrete}
use oscs25_labs.Template.Links.{Ptr}
use oscs25_labs.Template.Queue.{queue_pop}
use oscs25_labs.Template.Queue.Refine.{queue_pop-IsQueue}
use oscs25_labs.Pages.{Pages}
use oscs25_labs.Regions.{RcRegion, rc_free}
use oscs25_labs.Threads.Queues.{IsQueue-frame, Unlinked-frame, Disjoint-tail}
use oscs25_labs.Threads.Steps.{Runner, kernel, user, RunnerOf, Represents}
use oscs25_labs.Threads.Defs.{System}
use oscs25_labs.Threads.Reap.{reap, reap_prog, reap_region, free_stacks, reap_loop, kill_zombies}

-- The state as the queues and the threads see it.
record SameThreads (s s' : System) : Type 0 where
  thread : s'.thread ≡ s.thread
  node : s'.node ≡ s.node
  run : s'.run_queue ≡ s.run_queue
  dead : s'.dead_queue ≡ s.dead_queue
  current : s'.current ≡ s.current
  idle : s'.idle_thread ≡ s.idle_thread

reap_region-SameThreads :
    (t r : ℕ) (o : Option RcRegion × Pages) (s : System)
    → SameThreads s (free_stacks t (reap_region t r o s))
unfolding reap_region free_stacks
reap_region-SameThreads t r (none, p) s = record {
  thread = refl;
  node = refl;
  run = refl;
  dead = refl;
  current = refl;
  idle = refl;
}
reap_region-SameThreads t r (some region', p) s = record {
  thread = refl;
  node = refl;
  run = refl;
  dead = refl;
  current = refl;
  idle = refl;
}

-- A thread with a program is reaped, and no queue is touched.
reap_program :
    (t r : ℕ) (s : System)
    → (s.thread t).prog ≡ some r
    → (s' : System) × (reap (some t) s ≡ some s') × SameThreads s s'
unfolding reap reap_prog
reap_program t r s e =
    let h = reap_region-SameThreads t r (rc_free (s.region r) s.pages) s in
    rw e (
      _,
      refl,
      record {
        thread = h.thread;
        node = h.node;
        run = h.run;
        dead = h.dead;
        current = h.current;
        idle = h.idle;
      },
    )

abbrev pub AllPrograms : System → List ℕ → Type 0
AllPrograms s [] = Unit
AllPrograms s (t ∷ ts) = ((r : ℕ) × ((s.thread t).prog ≡ some r)) × AllPrograms s ts

RunnerOf-tail :
    (s s' : System) (cur : Runner) (xs : List ℕ) (d : ℕ) (ds : List ℕ)
    → s'.thread ≡ s.thread
    → RunnerOf s cur xs (d ∷ ds)
    → RunnerOf s' cur xs ds
RunnerOf-tail s s' (kernel c) xs d ds e low = rw e low
RunnerOf-tail s s' (user c) xs d ds e (high, alive, out_run, out_dead) =
    rw e (high, alive, out_run, (not-mem-cons c d ds out_dead).1)

-- The dead thread at the head has left the queue.
popped-Represents :
    (s s' : System) (cur : Runner) (xs : List ℕ) (d : ℕ) (ds : List ℕ)
    → Represents s cur xs (d ∷ ds)
    → let (head, dead', node') = queue_pop s.dead_queue s.node in
      SameThreads (record s { dead_queue = dead'; node = node' }) s' → Represents s' cur xs ds
popped-Represents s s' cur xs d ds r h =
    let (e, dead', clear, same) = queue_pop-IsQueue s.node s.dead_queue d ds r.system.dead in
    let apart' = Disjoint-tail d ds xs (Disjoint-sym xs (d ∷ ds) r.system.apart) in
    record {
      system = record {
        run = rw (h.run, h.node) (IsQueue-frame (d ∷ ds) xs same r.system.apart r.system.run);
        dead = rw (h.dead, h.node) dead';
        apart = Disjoint-sym ds xs apart';
        rest = λ a out out'. rw h.node (elim (ℕ_discrete a d) [
          | yes eq ↦ rw eq clear
          | no ne ↦
              let out_all = cons-not-mem a d ds ne out' in
              Unlinked-frame (d ∷ ds) a same out_all (r.system.rest a out out_all)
        ]);
      };
      current = h.current ∙ r.current;
      runs = RunnerOf-tail s s' cur xs d ds h.thread r.runs;
      idle = rw (h.thread, h.idle) r.idle;
      waits = λ u m. rw h.thread (r.waits u m);
      dead = λ u m. rw h.thread (r.dead u (cons-mem u d ds m));
    }

AllPrograms-same :
    (s s' : System) (ds : List ℕ) → s'.thread ≡ s.thread → AllPrograms s ds → AllPrograms s' ds
AllPrograms-same s s' [] e all = tt
AllPrograms-same s s' (d ∷ ds) e all = (rw e all.0, AllPrograms-same s s' ds e all.1)

-- The state behind the pop of the dead queue, with the node that it gave.
popped : System → System
popped s =
    let (head, dead', node') = queue_pop s.dead_queue s.node in
    record s { dead_queue = dead'; node = node' }

popped_head : System → Ptr
popped_head s = (queue_pop s.dead_queue s.node).0

popped_thread : (s : System) → (popped s).thread ≡ s.thread
unfolding popped
popped_thread s = refl

reap_loop_step :
    (n : ℕ) (s : System) → reap_loop (suc n) s ≡ (reap (popped_head s) (popped s) >>= reap_loop n)
unfolding popped popped_head reap_loop
reap_loop_step n s = refl

popped_dead :
    (s : System) (cur : Runner) (xs : List ℕ) (d : ℕ) (ds : List ℕ)
    → Represents s cur xs (d ∷ ds)
    → popped_head s ≡ some d
unfolding popped_head
popped_dead s cur xs d ds r = (queue_pop-IsQueue s.node s.dead_queue d ds r.system.dead).0

reap_kernel : (t : ℕ) (s : System) → (s.thread t).prog ≡ none → reap (some t) s ≡ none
unfolding reap reap_prog
reap_kernel t s e = rw e refl

reaped :
    (ds : List ℕ) (n : ℕ) (s : System) (cur : Runner) (xs : List ℕ)
    → length ds ≡ n
    → Represents s cur xs ds
    → AllPrograms s ds
    → (s' : System) × (reap_loop n s ≡ some s') × Represents s' cur xs []
unfolding popped
reaped [] zero s cur xs e r all = (s, (unfold reap_loop in refl), r)
reaped [] (suc n) s cur xs e r all = absurd (omega arith)
reaped (d ∷ ds) zero s cur xs e r all = absurd (omega arith)
reaped (d ∷ ds) (suc n) s cur xs e r all =
    let (prog, has) = all.0 in
    let (s₁, e₁, same) = reap_program d prog (popped s) (rw (popped_thread s) has) in
    let r₁ = popped-Represents s s₁ cur xs d ds r same in
    let (s₂, e₂, r₂) =
      reaped ds n s₁ cur xs (omega arith) r₁ (AllPrograms-same s s₁ ds same.thread all.1) in
    (
      s₂,
      reap_loop_step n s
          ∙ ap (λ (p : Ptr). reap p (popped s) >>= reap_loop n) (popped_dead s cur xs d ds r)
          ∙ ap (λ (o : Option System). o >>= reap_loop n) e₁
          ∙ e₂,
      r₂,
    )

-- If every dead thread has a program, `kill_zombies` ends with no dead thread left; who runs and who
-- waits is as before.
pub kill_zombies-Represents :
    (s : System) (cur : Runner) (xs ds : List ℕ)
    → Represents s cur xs ds
    → AllPrograms s ds
    → (s' : System) × (kill_zombies s ≡ some s') × Represents s' cur xs []
unfolding kill_zombies
kill_zombies-Represents s cur xs ds r all =
    reaped ds s.dead_queue.size s cur xs (sym r.system.dead.size) r all

-- If the dead thread at the head has no program, as a thread of the kernel, `kill_zombies` does not
-- come past it.
kill_zombies-no_program :
    (s : System) (cur : Runner) (xs : List ℕ) (d : ℕ) (ds : List ℕ)
    → Represents s cur xs (d ∷ ds)
    → (s.thread d).prog ≡ none
    → kill_zombies s ≡ none
unfolding kill_zombies
kill_zombies-no_program s cur xs d ds r kernel_thread =
    ap (λ (n : ℕ). reap_loop n s) r.system.dead.size
    ∙ (reap_loop_step (length ds) s
        ∙ ap (λ (p : Ptr). reap p (popped s) >>= reap_loop (length ds))
            (popped_dead s cur xs d ds r)
        ∙ ap (λ (o : Option System). o >>= reap_loop (length ds))
            (reap_kernel d (popped s) (rw (popped_thread s) kernel_thread)))
