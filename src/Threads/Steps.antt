-- ===== src/Threads/Steps.antt =====
-- The scheduler against round robin: who runs, who waits in which order, and who is dead.
use mathlib.Core.List.{append-nil}
use oscs25_labs.Base.{
  ℕ, suc, ◌≤◌, ◌<◌, ◌^◌, ◌≡◌, refl, ap, ◌∙◌, true, false, List, [], ◌∷◌, ◌++◌, mem, mem-append,
  length, arith, ◌==◌, ==_iff, ltb, lt→ltb, Bool-cases, inl, inr,
}
use oscs25_labs.Template.Queue.{queue_pop}
use oscs25_labs.Threads.System.{IsSystem, push_run-IsSystem, take_next, rest_of}
use oscs25_labs.Threads.Defs.{
  System, requeue, push_run, choose, switch_thread, schedule, thread_alive,
}

-- The thread that runs: one of the two of the kernel, which never wait, or another one.
pub data Runner : Type 0 where
  kernel : ℕ → Runner
  user : ℕ → Runner

abbrev pub thread_of : Runner → ℕ
thread_of (kernel t) = t
thread_of (user t) = t

-- What a thread that runs adds to the queue when it gives way.
abbrev pub requeued : Runner → List ℕ
requeued (kernel t) = []
requeued (user t) = t ∷ []

-- Who runs next.
abbrev pub runner : (idle : ℕ) → List ℕ → Runner
runner idle [] = kernel idle
runner idle (x ∷ xs) = user x

-- A thread with a number above those of the two kernel threads.
abbrev pub IsUser : System → ℕ → Type 0
IsUser s t = 1 < (s.thread t).id

abbrev pub RunnerOf : System → Runner → List ℕ → List ℕ → Type 0
RunnerOf s (kernel t) xs ds = (s.thread t).id ≤ 1
RunnerOf s (user t) xs ds =
    IsUser s t × ((s.thread t).alive ≡ true) × (mem t xs ≡ false) × (mem t ds ≡ false)

pub record Represents (s : System) (cur : Runner) (xs ds : List ℕ) : Type 0 where
  pub system : IsSystem s xs ds
  pub current : s.current ≡ thread_of cur
  pub runs : RunnerOf s cur xs ds
  pub idle : (s.thread s.idle_thread).id ≤ 1
  pub waits : (t : ℕ) → mem t xs ≡ true → IsUser s t × ((s.thread t).alive ≡ true)
  pub dead : (t : ℕ) → mem t ds ≡ true → IsUser s t

-- The switch to the first of `ys`, all of which are alive.
switch_next :
    (s : System) (ys ds : List ℕ)
    → IsSystem s ys ds
    → (s.thread s.idle_thread).id ≤ 1
    → ((t : ℕ) → mem t ys ≡ true → IsUser s t × ((s.thread t).alive ≡ true))
    → ((t : ℕ) → mem t ds ≡ true → IsUser s t)
    → let (head, run', node') = queue_pop s.run_queue s.node in
      Represents
        (switch_thread (choose head s) (record s { run_queue = run'; node = node' }))
        (runner s.idle_thread ys)
        (rest_of ys)
        ds
unfolding choose switch_thread
switch_next s [] ds i idle waits dead =
    let (e, i') = take_next s [] ds i in
    record { system = i'; current = e; runs = idle; idle = idle; waits = waits; dead = dead }
switch_next s (y ∷ ys) ds i idle waits dead =
    let (e, i') = take_next s (y ∷ ys) ds i in
    let here = waits y (ground (arith, ==_iff y y)) in
    record {
      system = i';
      current = e;
      runs = (here.0, here.1, i.run.distinct.0, i.apart y (ground (arith, ==_iff y y)));
      idle = idle;
      waits = λ t m. waits t (ground arith);
      dead = dead;
    }

requeue_kernel : (s : System) → (s.thread s.current).id ≤ 1 → requeue s ≡ s
unfolding requeue thread_alive
requeue_kernel s low =
    let no_user : ltb 1 (s.thread s.current).id ≡ false = ground arith in rw no_user refl

pub requeue_dead : (s : System) → (s.thread s.current).alive ≡ false → requeue s ≡ s
unfolding requeue thread_alive
requeue_dead s dead = ground arith

requeue_user :
    (s : System)
    → 1 < (s.thread s.current).id
    → (s.thread s.current).alive ≡ true
    → requeue s ≡ push_run s.current s
unfolding requeue thread_alive
requeue_user s high alive = ground (arith, lt→ltb 1 (s.thread s.current).id)

pub schedule_from :
    (s s₁ : System) (ys ds : List ℕ)
    → requeue s ≡ s₁
    → IsSystem s₁ ys ds
    → (s₁.thread s₁.idle_thread).id ≤ 1
    → ((t : ℕ) → mem t ys ≡ true → IsUser s₁ t × ((s₁.thread t).alive ≡ true))
    → ((t : ℕ) → mem t ds ≡ true → IsUser s₁ t)
    → Represents (schedule s) (runner s₁.idle_thread ys) (rest_of ys) ds
unfolding schedule
schedule_from s s₁ ys ds e i idle waits dead = rw e (switch_next s₁ ys ds i idle waits dead)

idle_push :
    (s : System) (t : ℕ)
    → (s.thread s.idle_thread).id ≤ 1
    → ((push_run t s).thread (push_run t s).idle_thread).id ≤ 1
unfolding push_run
idle_push s t low = low

dead_push :
    (s : System) (ds : List ℕ) (t : ℕ)
    → ((u : ℕ) → mem u ds ≡ true → IsUser s u)
    → (u : ℕ) → mem u ds ≡ true
    → IsUser (push_run t s) u
unfolding push_run
dead_push s ds t dead = dead

waits_push :
    (s : System) (xs : List ℕ) (t : ℕ)
    → IsUser s t × ((s.thread t).alive ≡ true)
    → ((u : ℕ) → mem u xs ≡ true → IsUser s u × ((s.thread u).alive ≡ true))
    → (u : ℕ) → mem u (xs ++ t ∷ []) ≡ true
    → IsUser (push_run t s) u × (((push_run t s).thread u).alive ≡ true)
unfolding push_run
waits_push s xs t new waits u m = elim (Bool-cases (u == t)) [
  | inl same ↦ let e : u ≡ t = (==_iff u t).0 same in rw e new
  | inr other ↦ waits u (ground (arith, mem-append u xs (t ∷ [])))
]

-- A thread that gives way goes behind those that wait, and the first of them runs; a thread of the
-- kernel does not wait, and the idle thread runs if no other one does.
pub schedule-Represents :
    (s : System) (cur : Runner) (xs ds : List ℕ)
    → Represents s cur xs ds
    → suc (length xs) < 2 ^ 32
    → Represents
        (schedule s)
        (runner s.idle_thread (xs ++ requeued cur))
        (rest_of (xs ++ requeued cur))
        ds
unfolding push_run
schedule-Represents s (kernel t) xs ds r room =
    let low : (s.thread s.current).id ≤ 1 = rw r.current r.runs in
    rw (append-nil xs)
      (schedule_from s s xs ds (requeue_kernel s low) r.system r.idle r.waits r.dead)
schedule-Represents s (user t) xs ds r room =
    let (high, alive, out_run, out_dead) = r.runs in
    let e : requeue s ≡ push_run t s =
      requeue_user s (rw r.current high) (rw r.current alive)
      ∙ ap (λ (c : ℕ). push_run c s) r.current in
    schedule_from s (push_run t s) (xs ++ t ∷ []) ds e
      (push_run-IsSystem s xs ds t r.system out_run out_dead room) (idle_push s t r.idle)
      (λ u m. waits_push s xs t (high, alive) r.waits u m) (dead_push s ds t r.dead)
