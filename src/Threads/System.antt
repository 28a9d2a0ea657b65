-- ===== src/Threads/System.antt =====
-- The invariant of the queues: the threads that wait to run, the dead ones, and the one that runs.
use oscs25_labs.Base.{
  ℕ, suc, ◌<◌, ◌^◌, ◌≡◌, refl, ap, false, List, [], ◌∷◌, ◌++◌, mem, Disjoint, Disjoint-sym, length,
  not-mem-append, cons-not-mem,
}
use native.Mathlib.Decide.{ℕ_discrete}
use oscs25_labs.Template.Links.{Ptr}
use oscs25_labs.Template.Queue.{queue_pop}
use oscs25_labs.Template.Queue.Refine.{
  IsQueue, Unlinked, queue_push-IsQueue, queue_pop-IsQueue, queue_pop-empty,
}
use oscs25_labs.Threads.Queues.{IsQueue-frame, Unlinked-frame, Disjoint-snoc, Disjoint-tail}
use oscs25_labs.Threads.Defs.{System, push_run, push_dead, choose, switch_thread}

-- `xs` wait to run and `ds` are dead, each in the order of the queue, and no thread is in both; the
-- nodes of all other threads have no links.
pub record IsSystem (s : System) (xs ds : List ℕ) : Type 0 where
  pub run : IsQueue s.node s.run_queue xs
  pub dead : IsQueue s.node s.dead_queue ds
  pub apart : Disjoint xs ds
  pub rest : (a : ℕ) → mem a xs ≡ false → mem a ds ≡ false → Unlinked a s.node

-- The running thread is in no queue.
pub record IsRunning (s : System) (xs ds : List ℕ) : Type 0 where
  pub system : IsSystem s xs ds
  pub out_run : mem s.current xs ≡ false
  pub out_dead : mem s.current ds ≡ false

-- A thread that is in no queue goes to the end of the run queue.
pub push_run-IsSystem :
    (s : System) (xs ds : List ℕ) (t : ℕ)
    → IsSystem s xs ds
    → mem t xs ≡ false
    → mem t ds ≡ false
    → suc (length xs) < 2 ^ 32
    → IsSystem (push_run t s) (xs ++ t ∷ []) ds
unfolding push_run
push_run-IsSystem s xs ds t i out_run out_dead room =
    let (run', same) =
      queue_push-IsQueue s.node s.run_queue xs t i.run out_run (i.rest t out_run out_dead) room in
    let apart' = Disjoint-snoc xs ds t i.apart out_dead in
    record {
      run = run';
      dead = IsQueue-frame (xs ++ t ∷ []) ds same (Disjoint-sym (xs ++ t ∷ []) ds apart') i.dead;
      apart = apart';
      rest = λ a out out'.
          let (out_xs, out_t) = not-mem-append a xs (t ∷ []) out in
          Unlinked-frame (xs ++ t ∷ []) a same out (i.rest a out_xs out');
    }

pub push_dead-IsSystem :
    (s : System) (xs ds : List ℕ) (t : ℕ)
    → IsSystem s xs ds
    → mem t xs ≡ false
    → mem t ds ≡ false
    → suc (length ds) < 2 ^ 32
    → IsSystem (push_dead t s) xs (ds ++ t ∷ [])
unfolding push_dead
push_dead-IsSystem s xs ds t i out_run out_dead room =
    let (dead', same) =
      queue_push-IsQueue s.node s.dead_queue ds t i.dead out_dead (i.rest t out_run out_dead)
        room in
    let apart' = Disjoint-snoc ds xs t (Disjoint-sym xs ds i.apart) out_run in
    let apart'' = Disjoint-sym (ds ++ t ∷ []) xs apart' in
    record {
      run = IsQueue-frame (ds ++ t ∷ []) xs same apart'' i.run;
      dead = dead';
      apart = apart'';
      rest = λ a out out'.
          let (out_ds, out_t) = not-mem-append a ds (t ∷ []) out' in
          Unlinked-frame (ds ++ t ∷ []) a same out' (i.rest a out out_ds);
    }

-- The thread that `schedule` takes: the first that waits, or the idle thread.
abbrev pub next_of : System → List ℕ → ℕ
next_of s [] = s.idle_thread
next_of s (x ∷ xs) = x

abbrev pub rest_of : List ℕ → List ℕ
rest_of [] = []
rest_of (x ∷ xs) = xs

-- The switch takes the first thread off the run queue.
pub take_next :
    (s : System) (xs ds : List ℕ)
    → IsSystem s xs ds
    → let (head, run', node') = queue_pop s.run_queue s.node in
      (choose head s ≡ next_of s xs)
      × IsSystem
          (switch_thread (choose head s) (record s { run_queue = run'; node = node' }))
          (rest_of xs)
          ds
unfolding choose switch_thread
take_next s [] ds i =
    let e = queue_pop-empty s.node s.run_queue i.run in
    rw e (refl, record { run = i.run; dead = i.dead; apart = i.apart; rest = i.rest })
take_next s (x ∷ xs) ds i =
    let (e, run', clear, same) = queue_pop-IsQueue s.node s.run_queue x xs i.run in
    (
      ap (λ (p : Ptr). choose p s) e,
      record {
        run = run';
        dead = IsQueue-frame (x ∷ xs) ds same (Disjoint-sym (x ∷ xs) ds i.apart) i.dead;
        apart = Disjoint-tail x xs ds i.apart;
        rest = λ a out out'. elim (ℕ_discrete a x) [
          | yes eq ↦ rw eq clear
          | no ne ↦
              let out_all = cons-not-mem a x xs ne out in
              Unlinked-frame (x ∷ xs) a same out_all (i.rest a out_all out')
        ];
      },
    )
