-- ===== src/Threads/Spawn.antt =====
-- A new thread waits behind the others.
use oscs25_labs.Base.{
  ℕ, suc, ◌<◌, ◌^◌, ◌≡◌, ◌≢◌, refl, ◌∙◌, Bool, true, false, List, [], ◌∷◌, ◌++◌, mem, length, ◌==◌,
  ==_iff, Bool-cases, inl, inr, cons-not-mem, if◌then◌else◌, update-ne, ne_of_mem,
}
use oscs25_labs.Template.Links.{Ptr, node_init}
use oscs25_labs.Threads.Queues.{
  IsQueue-frame, Unlinked-frame, node_init-SameOutside, node_init-Unlinked, not-mem-snoc,
  mem_of_mem-snoc,
}
use oscs25_labs.Threads.System.{IsSystem, push_run-IsSystem}
use oscs25_labs.Threads.Steps.{Runner, kernel, user, thread_of, RunnerOf, Represents}
use oscs25_labs.Threads.Defs.{
  System, Code, Clock, push_run, thread_init, make_thread, enable_context_switch,
}

-- The state before the new thread is queued.
born : Code → (t assigned args : ℕ) → Ptr → System → System
born code t assigned args prog s =
    let s₁ = thread_init code t assigned args prog s in record s₁ { node = node_init t s₁.node }

born-IsSystem :
    (code : Code) (t assigned args : ℕ) (prog : Ptr) (s : System) (xs ds : List ℕ)
    → IsSystem s xs ds
    → mem t xs ≡ false
    → mem t ds ≡ false
    → IsSystem (born code t assigned args prog s) xs ds
unfolding born thread_init
born-IsSystem code t assigned args prog s xs ds i out_run out_dead =
    let same = node_init-SameOutside t s.node in
    record {
      run =
          IsQueue-frame (t ∷ []) xs same
            (λ a m. cons-not-mem a t [] (ne_of_mem a t xs m out_run) refl) i.run;
      dead =
          IsQueue-frame (t ∷ []) ds same
            (λ a m. cons-not-mem a t [] (ne_of_mem a t ds m out_dead) refl) i.dead;
      apart = i.apart;
      rest = λ a out out'. elim (Bool-cases (a == t)) [
        | inl eq ↦ let e : a ≡ t = (==_iff a t).0 eq in rw e (node_init-Unlinked t s.node)
        | inr other ↦ Unlinked-frame (t ∷ []) a same (rw other refl) (i.rest a out out')
      ];
    }

born_self :
    (code : Code) (t assigned args : ℕ) (prog : Ptr) (s : System)
    → (((born code t assigned args prog s).thread t).id ≡ s.total_thread)
      × (((born code t assigned args prog s).thread t).alive ≡ true)
      × (((born code t assigned args prog s).thread t).prog ≡ prog)
unfolding born thread_init
born_self code t assigned args prog s =
    let same : (t == t) ≡ true = (==_iff t t).1 refl in rw same (refl, refl, refl)

born_other :
    (code : Code) (t assigned args : ℕ) (prog : Ptr) (s : System) (u : ℕ)
    → u ≢ t
    → (born code t assigned args prog s).thread u ≡ s.thread u
unfolding born thread_init
born_other code t assigned args prog s u ne = update-ne s.thread t _ u ne

born_fields :
    (code : Code) (t assigned args : ℕ) (prog : Ptr) (s : System)
    → ((born code t assigned args prog s).current ≡ s.current)
      × ((born code t assigned args prog s).idle_thread ≡ s.idle_thread)
unfolding born thread_init
born_fields code t assigned args prog s = (refl, refl)

-- Whether the timer is started, which does not concern the queues.
started : Bool → Code → Clock → System → System
started first code clock s = if first then enable_context_switch code clock s else s

started-Represents :
    (first : Bool) (code : Code) (clock : Clock) (s : System) (cur : Runner) (xs ds : List ℕ)
    → Represents s cur xs ds
    → Represents (started first code clock s) cur xs ds
unfolding started enable_context_switch
started-Represents false code clock s cur xs ds r = r
started-Represents true code clock s (kernel c) xs ds r = record {
  system =
      let i = r.system in record { run = i.run; dead = i.dead; apart = i.apart; rest = i.rest };
  current = r.current;
  runs = r.runs;
  idle = r.idle;
  waits = r.waits;
  dead = r.dead;
}
started-Represents true code clock s (user c) xs ds r = record {
  system =
      let i = r.system in record { run = i.run; dead = i.dead; apart = i.apart; rest = i.rest };
  current = r.current;
  runs = r.runs;
  idle = r.idle;
  waits = r.waits;
  dead = r.dead;
}

runner_born :
    (s s' : System) (cur : Runner) (t : ℕ) (xs ds : List ℕ)
    → ((u : ℕ) → u ≢ t → s'.thread u ≡ s.thread u)
    → thread_of cur ≢ t
    → RunnerOf s cur xs ds
    → RunnerOf s' cur (xs ++ t ∷ []) ds
runner_born s s' (kernel c) t xs ds same ne low = rw (same c ne) low
runner_born s s' (user c) t xs ds same ne (high, alive, out_run, out_dead) =
    rw (same c ne) (high, alive, not-mem-snoc c t xs out_run ne, out_dead)

-- The memory that `dyna_alloc` gives for a thread belongs to no thread in use.
pub record IsFresh (t : ℕ) (s : System) (cur : Runner) (xs ds : List ℕ) : Type 0 where
  pub not_running : thread_of cur ≢ t
  pub not_idle : s.idle_thread ≢ t
  pub not_waiting : mem t xs ≡ false
  pub not_dead : mem t ds ≡ false

queued-Represents :
    (code : Code) (t assigned args : ℕ) (prog : Ptr) (s : System) (cur : Runner) (xs ds : List ℕ)
    → Represents s cur xs ds
    → IsFresh t s cur xs ds
    → 1 < s.total_thread
    → suc (length xs) < 2 ^ 32
    → Represents (push_run t (born code t assigned args prog s)) cur (xs ++ t ∷ []) ds
unfolding push_run
queued-Represents code t assigned args prog s cur xs ds r fresh high room =
    let b = born code t assigned args prog s in
    let same = born_other code t assigned args prog s in
    let (cur_same, idle_same) = born_fields code t assigned args prog s in
    let self = born_self code t assigned args prog s in
    let i =
      born-IsSystem code t assigned args prog s xs ds r.system fresh.not_waiting fresh.not_dead in
    record {
      system = push_run-IsSystem b xs ds t i fresh.not_waiting fresh.not_dead room;
      current = cur_same ∙ r.current;
      runs = runner_born s (push_run t b) cur t xs ds same fresh.not_running r.runs;
      idle = rw (idle_same, same s.idle_thread fresh.not_idle) r.idle;
      waits = λ u m. elim (Bool-cases (u == t)) [
        | inl eq ↦ let e : u ≡ t = (==_iff u t).0 eq in rw (e, self.0, self.1) (high, refl)
        | inr other ↦
            let old : mem u xs ≡ true = mem_of_mem-snoc u t xs other m in
            rw (same u (ne_of_mem u t xs old fresh.not_waiting)) (r.waits u old)
      ];
      dead = λ u m. rw (same u (ne_of_mem u t ds m fresh.not_dead)) (r.dead u m);
    }

-- A thread is made in memory that no thread has, once the two of the kernel are there: it waits
-- behind the others, and all else about the queues stays.
pub make_thread-Represents :
    (code : Code) (clock : Clock) (t assigned args : ℕ) (prog : Ptr) (s : System) (cur : Runner)
    (xs ds : List ℕ)
    → Represents s cur xs ds
    → IsFresh t s cur xs ds
    → 1 < s.total_thread
    → suc (length xs) < 2 ^ 32
    → Represents (make_thread code clock t assigned args prog s) cur (xs ++ t ∷ []) ds
unfolding make_thread born started
make_thread-Represents code clock t assigned args prog s cur xs ds r fresh high room =
    let b = born code t assigned args prog s in
    (started-Represents ((push_run t b).total_thread == 3) code clock (push_run t b) cur
      (xs ++ t ∷ []) ds (queued-Represents code t assigned args prog s cur xs ds r fresh high room))

-- The other threads stay as they are, and the new one has the next number.
pub make_thread_other :
    (code : Code) (clock : Clock) (t assigned args : ℕ) (prog : Ptr) (s : System) (u : ℕ)
    → u ≢ t
    → (make_thread code clock t assigned args prog s).thread u ≡ s.thread u
unfolding make_thread born push_run enable_context_switch
make_thread_other code clock t assigned args prog s u ne =
    let first = (push_run t (born code t assigned args prog s)).total_thread == 3 in
    elim (Bool-cases first) [
      | inl e ↦ rw e (born_other code t assigned args prog s u ne)
      | inr e ↦ rw e (born_other code t assigned args prog s u ne)
    ]

pub make_thread_self :
    (code : Code) (clock : Clock) (t assigned args : ℕ) (prog : Ptr) (s : System)
    → ((make_thread code clock t assigned args prog s).thread t).id ≡ s.total_thread
unfolding make_thread born push_run enable_context_switch
make_thread_self code clock t assigned args prog s =
    let first = (push_run t (born code t assigned args prog s)).total_thread == 3 in
    let self = born_self code t assigned args prog s in
    elim (Bool-cases first) [ inl e ↦ rw e self.0 | inr e ↦ rw e self.0 ]

pub make_thread_fields :
    (code : Code) (clock : Clock) (t assigned args : ℕ) (prog : Ptr) (s : System)
    → ((make_thread code clock t assigned args prog s).current ≡ s.current)
      × ((make_thread code clock t assigned args prog s).region ≡ s.region)
unfolding make_thread born push_run enable_context_switch thread_init
make_thread_fields code clock t assigned args prog s =
    let first = (push_run t (born code t assigned args prog s)).total_thread == 3 in
    elim (Bool-cases first) [ inl e ↦ rw e (refl, refl) | inr e ↦ rw e (refl, refl) ]
