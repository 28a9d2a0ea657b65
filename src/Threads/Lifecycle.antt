-- ===== src/Threads/Lifecycle.antt =====
-- The end of a thread, by itself or by another one.
use native.Mathlib.Decide.{ℕ_discrete}
use oscs25_labs.Base.{
  ℕ, suc, ◌<◌, ◌^◌, ◌≡◌, ◌≢◌, refl, sym, ap, ◌∙◌, true, false, List, [], ◌∷◌, ◌++◌, Option, none,
  some, mem, mem-append, remove, Disjoint-sym, length, arith, ◌==◌, ==_iff, Bool-cases, inl, inr,
  update-ne, update_self, mem_of_mem-remove, mem-remove_ne, not-mem-remove_self, mem-remove,
}
use oscs25_labs.Template.Links.{Links}
use oscs25_labs.Template.Queue.{Queue, queue_erase}
use oscs25_labs.Template.Queue.Refine.{Erased, queue_erase-IsQueue}
use oscs25_labs.Threads.Queues.{IsQueue-frame, Unlinked-frame, Disjoint-remove, not-mem-snoc}
use oscs25_labs.Threads.System.{IsSystem, push_dead-IsSystem, rest_of}
use oscs25_labs.Threads.Steps.{
  Runner, kernel, user, thread_of, runner, IsUser, RunnerOf, Represents, schedule_from,
  requeue_dead,
}
use oscs25_labs.Threads.Defs.{System, Thread, push_dead, schedule}
use oscs25_labs.Threads.Ending.{
  set_dead, mask_timer, kill_curr_thread, in_run, run_erased, erase_from, kill_thread,
}

set_dead_id : (t u : ℕ) (s : System) → ((set_dead t s).thread u).id ≡ (s.thread u).id
unfolding set_dead
set_dead_id t u s = elim (Bool-cases (u == t)) [
  | inl same ↦ let e : u ≡ t = (==_iff u t).0 same in rw (same, e) refl
  | inr other ↦ rw other refl
]

set_dead_alive :
    (t u : ℕ) (s : System) → u ≢ t → ((set_dead t s).thread u).alive ≡ (s.thread u).alive
unfolding set_dead
set_dead_alive t u s ne = ap (λ (th : Thread). th.alive) (update-ne s.thread t _ u ne)

set_dead_self : (t : ℕ) (s : System) → ((set_dead t s).thread t).alive ≡ false
unfolding set_dead
set_dead_self t s = ap (λ (th : Thread). th.alive) (update_self s.thread t _)

-- The state at the call of `schedule` when the thread `t` ends.
ending : ℕ → System → System
ending t s = mask_timer false (push_dead t (set_dead t (mask_timer true s)))

kill_curr_ending : (s : System) (t : ℕ) → s.current ≡ t → kill_curr_thread s ≡ schedule (ending t s)
unfolding kill_curr_thread ending
kill_curr_ending s t e =
    ap (λ (c : ℕ). schedule (mask_timer false (push_dead c (set_dead c (mask_timer true s))))) e

ending-IsSystem :
    (s : System) (xs ds : List ℕ) (t : ℕ)
    → IsSystem s xs ds
    → mem t xs ≡ false
    → mem t ds ≡ false
    → suc (length ds) < 2 ^ 32
    → IsSystem (ending t s) xs (ds ++ t ∷ [])
unfolding ending mask_timer set_dead
ending-IsSystem s xs ds t i out_run out_dead room =
    let i' =
      push_dead-IsSystem (set_dead t (mask_timer true s)) xs ds t
        (record { run = i.run; dead = i.dead; apart = i.apart; rest = i.rest }) out_run out_dead
        room in
    record { run = i'.run; dead = i'.dead; apart = i'.apart; rest = i'.rest }

ending_id : (s : System) (t u : ℕ) → ((ending t s).thread u).id ≡ (s.thread u).id
unfolding ending mask_timer push_dead
ending_id s t u = set_dead_id t u (mask_timer true s)

ending_alive : (s : System) (t u : ℕ) → u ≢ t → ((ending t s).thread u).alive ≡ (s.thread u).alive
unfolding ending mask_timer push_dead
ending_alive s t u ne = set_dead_alive t u (mask_timer true s) ne

ending_dead : (s : System) (t : ℕ) → ((ending t s).thread t).alive ≡ false
unfolding ending mask_timer push_dead
ending_dead s t = set_dead_self t (mask_timer true s)

ending_current : (s : System) (t : ℕ) → (ending t s).current ≡ s.current
unfolding ending mask_timer push_dead set_dead
ending_current s t = refl

ending_idle : (s : System) (t : ℕ) → (ending t s).idle_thread ≡ s.idle_thread
unfolding ending mask_timer push_dead set_dead
ending_idle s t = refl

snoc-IsUser :
    (s s' : System) (ds : List ℕ) (t : ℕ)
    → ((u : ℕ) → (s'.thread u).id ≡ (s.thread u).id)
    → IsUser s t
    → ((u : ℕ) → mem u ds ≡ true → IsUser s u)
    → (u : ℕ) → mem u (ds ++ t ∷ []) ≡ true
    → IsUser s' u
snoc-IsUser s s' ds t same high dead u m = elim (Bool-cases (u == t)) [
  | inl eq ↦ let e : u ≡ t = (==_iff u t).0 eq in rw (same u, e) high
  | inr other ↦ rw (same u) (dead u (ground (arith, mem-append u ds (t ∷ []))))
]

-- The running thread ends: it goes to the dead ones, and the first that waits runs.
pub kill_curr_thread-Represents :
    (s : System) (t : ℕ) (xs ds : List ℕ)
    → Represents s (user t) xs ds
    → suc (length ds) < 2 ^ 32
    → Represents (kill_curr_thread s) (runner s.idle_thread xs) (rest_of xs) (ds ++ t ∷ [])
unfolding ending mask_timer push_dead set_dead
kill_curr_thread-Represents s t xs ds r room =
    let (high, alive, out_run, out_dead) = r.runs in
    let e = ending t s in
    let is_dead : (e.thread e.current).alive ≡ false =
      ap (λ (c : ℕ). (e.thread c).alive) (ending_current s t ∙ r.current) ∙ ending_dead s t in
    rw (kill_curr_ending s t r.current, sym (ending_idle s t))
      (schedule_from e e xs (ds ++ t ∷ []) (requeue_dead e is_dead)
        (ending-IsSystem s xs ds t r.system out_run out_dead room)
        (rw (ending_idle s t, ending_id s t s.idle_thread) r.idle)
        (λ u m.
          let ne : u ≢ t = λ eq. cc (ap (λ (v : ℕ). mem v xs) eq) in
          rw (ending_id s t u, ending_alive s t u ne) (r.waits u m))
        (snoc-IsUser s e ds t (ending_id s t) high r.dead))

-- The thread leaves the run queue.
erased-IsSystem :
    (s : System) (t : ℕ) (xs ds : List ℕ) (r : Option Queue × Links)
    → IsSystem s xs ds
    → mem t xs ≡ true
    → Erased s.node t xs (remove t xs) r
    → IsSystem (run_erased r s) (remove t xs) ds
unfolding run_erased
erased-IsSystem s t xs ds (none, node') i m e = absurd e
erased-IsSystem s t xs ds (some run', node') i m e = record {
  run = e.0;
  dead = IsQueue-frame xs ds e.2 (Disjoint-sym xs ds i.apart) i.dead;
  apart = Disjoint-remove t xs ds i.apart;
  rest = λ a out out'. elim (ℕ_discrete a t) [
    | yes same ↦ rw same e.1
    | no ne ↦ elim (Bool-cases (mem a xs)) [
      | inl here ↦ absurd (cc (sym (mem-remove_ne t a xs ne here) ∙ out))
      | inr gone ↦ Unlinked-frame xs a e.2 gone (i.rest a gone out')
    ]
  ];
}

run_erased_thread : (r : Option Queue × Links) (s : System) → (run_erased r s).thread ≡ s.thread
unfolding run_erased
run_erased_thread (none, node') s = refl
run_erased_thread (some run', node') s = refl

run_erased_current :
    (r : Option Queue × Links) (s : System)
    → ((run_erased r s).current ≡ s.current) × ((run_erased r s).idle_thread ≡ s.idle_thread)
unfolding run_erased
run_erased_current (none, node') s = (refl, refl)
run_erased_current (some run', node') s = (refl, refl)

runner_same :
    (s s' : System) (cur : Runner) (t : ℕ) (xs ds : List ℕ)
    → ((u : ℕ) → (s'.thread u).id ≡ (s.thread u).id)
    → ((u : ℕ) → u ≢ t → (s'.thread u).alive ≡ (s.thread u).alive)
    → thread_of cur ≢ t
    → RunnerOf s cur xs ds
    → RunnerOf s' cur (remove t xs) (ds ++ t ∷ [])
runner_same s s' (kernel c) t xs ds ids alives ne low = rw (ids c) low
runner_same s s' (user c) t xs ds ids alives ne (high, alive, out_run, out_dead) = (
  rw (ids c) high,
  alives c ne ∙ alive,
  mem-remove t c xs out_run,
  not-mem-snoc c t ds out_dead ne,
)

dying-IsSystem :
    (s : System) (t : ℕ) (xs ds : List ℕ) → IsSystem s xs ds → IsSystem (set_dead t s) xs ds
unfolding set_dead
dying-IsSystem s t xs ds i = record { run = i.run; dead = i.dead; apart = i.apart; rest = i.rest }

dying_current : (t : ℕ) (s : System) → (set_dead t s).current ≡ s.current
unfolding set_dead
dying_current t s = refl

dying_idle : (t : ℕ) (s : System) → (set_dead t s).idle_thread ≡ s.idle_thread
unfolding set_dead
dying_idle t s = refl

ne_test : (a b : ℕ) → a ≢ b → (a == b) ≡ false
ne_test a b ne = ground (arith, ==_iff a b)

-- A thread that waits is killed: it leaves the queue, the order of the others is kept, and it goes to
-- the dead ones. The running thread goes on.
pub kill_thread-Represents :
    (s : System) (cur : Runner) (t : ℕ) (xs ds : List ℕ)
    → Represents s cur xs ds
    → mem t xs ≡ true
    → thread_of cur ≢ t
    → suc (length ds) < 2 ^ 32
    → Represents (kill_thread t in_run s) cur (remove t xs) (ds ++ t ∷ [])
unfolding kill_thread erase_from push_dead
kill_thread-Represents s cur t xs ds r m ne room =
    let other : (t == s.current) ≡ false = ne_test t s.current (λ e. ne (sym (e ∙ r.current))) in
    let s₁ = set_dead t s in
    let erasure = queue_erase (some s₁.run_queue) (some t) s₁.node in
    let s₂ = run_erased erasure s₁ in
    let i₁ : IsSystem s₁ xs ds = dying-IsSystem s t xs ds r.system in
    let i₂ =
      erased-IsSystem s₁ t xs ds erasure i₁ m
        (queue_erase-IsQueue s₁.node s₁.run_queue xs t i₁.run m) in
    let ids : (u : ℕ) → (s₂.thread u).id ≡ (s.thread u).id =
      λ u. ap (λ (f : ℕ → Thread). (f u).id) (run_erased_thread erasure s₁) ∙ set_dead_id t u s in
    let alives : (u : ℕ) → u ≢ t → (s₂.thread u).alive ≡ (s.thread u).alive = λ u out.
      ap (λ (f : ℕ → Thread). (f u).alive) (run_erased_thread erasure s₁)
      ∙ set_dead_alive t u s out in
    let (cur_same, idle_same) = run_erased_current erasure s₁ in
    let i₃ =
      push_dead-IsSystem s₂ (remove t xs) ds t i₂ (not-mem-remove_self t xs r.system.run.distinct)
        (r.system.apart t m) room in
    rw other record {
      system = i₃;
      current = cur_same ∙ dying_current t s ∙ r.current;
      runs = runner_same s (push_dead t s₂) cur t xs ds ids alives ne r.runs;
      idle = rw (idle_same, dying_idle t s, ids s.idle_thread) r.idle;
      waits = λ u in_rest.
          let out : u ≢ t = λ e. cc (
            sym (
              ap (λ (v : ℕ). mem v (remove t xs)) e
              ∙ not-mem-remove_self t xs r.system.run.distinct)
            ∙ in_rest) in
          rw (ids u, alives u out) (r.waits u (mem_of_mem-remove t u xs in_rest));
      dead = snoc-IsUser s (push_dead t s₂) ds t ids (r.waits t m).0 r.dead;
    }
