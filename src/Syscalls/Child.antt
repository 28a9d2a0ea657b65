-- ===== src/Syscalls/Child.antt =====
-- `fork_s` as a whole: the child, its place in the queue, and what the parent gets.
use oscs25_labs.Base.{
  ℕ, suc, ◌+◌, ◌-◌, ◌^◌, ◌≤◌, ◌<◌, ◌≡◌, ◌≢◌, refl, sym, ap, ◌∙◌, true, false, Option, some, List,
  [], ◌∷◌, ◌++◌, length, arith, ltb, ◌==◌, update, update_self, Bool-cases, ==_iff, inl, inr,
}
use oscs25_labs.Regions.{RcRegion, add_ref}
use oscs25_labs.Threads.Defs.{
  System, Thread, set_thread, user_stack_size, num_signals, state_user_sp, state_kernel_sp,
  state_lr,
}
use oscs25_labs.Threads.Ending.{mask_timer}
use oscs25_labs.Threads.Steps.{Runner, Represents}
use oscs25_labs.Threads.Spawn.{
  IsFresh, make_thread-Represents, make_thread_other, make_thread_self, make_thread_fields,
}
use oscs25_labs.Threads.Relabel.{Alike, Represents-Alike, mask_timer-Alike}
use oscs25_labs.Signals.{Machine, frame_word}
use oscs25_labs.Syscalls.Fork.{
  Supply, user_top, moved, copy_stacks, fork_state, add_prog_ref, fork_thread, fork_s,
}
use oscs25_labs.Syscalls.Forked.{
  StacksApart, StacksCopied, child_frame, moved_frame, copy_stacks-StacksCopied,
}

-- The running thread, and the thread that is made.
abbrev pub parent_of : System → Thread
parent_of s = s.thread s.current

abbrev pub made : Supply → System → Thread
made supply s = (fork_thread supply s).thread supply.child

parent_stays :
    (supply : Supply) (s : System)
    → s.current ≢ supply.child
    → parent_of (fork_thread supply s) ≡ parent_of s
unfolding fork_thread mask_timer
parent_stays supply s ne =
    let s₁ = mask_timer true s in
    let p = s₁.thread s₁.current in
    let fields = make_thread_fields supply.code supply.clock supply.child p.task p.args p.prog s₁ in
    let other =
      make_thread_other supply.code supply.clock supply.child p.task p.args p.prog s₁ s.current
        ne in
    ap ((fork_thread supply s).thread) fields.0 ∙ other

made_id : (supply : Supply) (s : System) → (made supply s).id ≡ s.total_thread
unfolding fork_thread mask_timer
made_id supply s =
    let s₁ = mask_timer true s in
    let p = s₁.thread s₁.current in
    make_thread_self supply.code supply.clock supply.child p.task p.args p.prog s₁

region_stays : (supply : Supply) (s : System) → (fork_thread supply s).region ≡ s.region
unfolding fork_thread mask_timer
region_stays supply s =
    let s₁ = mask_timer true s in
    let p = s₁.thread s₁.current in
    (make_thread_fields supply.code supply.clock supply.child p.task p.args p.prog s₁).1

fork_thread-Represents :
    (supply : Supply) (s : System) (cur : Runner) (xs ds : List ℕ)
    → Represents s cur xs ds
    → IsFresh supply.child s cur xs ds
    → 1 < s.total_thread
    → suc (length xs) < 2 ^ 32
    → Represents (fork_thread supply s) cur (xs ++ supply.child ∷ []) ds
unfolding fork_thread mask_timer
fork_thread-Represents supply s cur xs ds r fresh high room =
    let s₁ = mask_timer true s in
    let p = s₁.thread s₁.current in
    make_thread-Represents supply.code supply.clock supply.child p.task p.args p.prog s₁ cur xs ds
      (Represents-Alike s s₁ cur xs ds (mask_timer-Alike true s) r)
      (record {
        not_running = fresh.not_running;
        not_idle = fresh.not_idle;
        not_waiting = fresh.not_waiting;
        not_dead = fresh.not_dead;
      })
      high room

-- The system behind `fork_s`, whose program is the region `r`.
finished : Supply → (trap_frame sp_el0 r : ℕ) → (parent : Thread) → System → System
finished supply trap_frame sp_el0 r parent s =
    let forked =
      set_thread supply.child
        (fork_state supply.fork_entry trap_frame sp_el0 parent (s.thread supply.child)) s in
    mask_timer false (record forked { region = update s.region r (add_ref (s.region r)) })

fork_s-finished :
    (supply : Supply) (trap_frame r : ℕ) (m : Machine) (parent : Thread)
    → parent_of (fork_thread supply m.system) ≡ parent
    → parent.prog ≡ some r
    → fork_s supply trap_frame m
      ≡ some (record m {
        system = finished supply trap_frame m.sp_el0 r parent (fork_thread supply m.system);
        memory = copy_stacks trap_frame parent (made supply m.system) m.memory;
      })
unfolding fork_s finished add_prog_ref
fork_s-finished supply trap_frame r m parent stays prog = rw (stays, prog) refl

-- An update that keeps a field of one thread keeps it of all.
field_kept :
    {B : Type 0} (field : Thread → B) (thread : ℕ → Thread) (a : ℕ) (v : Thread) (u : ℕ)
    → field v ≡ field (thread a)
    → field (update thread a v u) ≡ field (thread u)
field_kept field thread a v u same = elim (Bool-cases (u == a)) [
  | inl here ↦ let e : u ≡ a = (==_iff u a).0 here in rw (here, e) same
  | inr other ↦ rw other refl
]

finished-Alike :
    (supply : Supply) (trap_frame sp_el0 r : ℕ) (parent : Thread) (s : System)
    → Alike s (finished supply trap_frame sp_el0 r parent s)
unfolding finished mask_timer fork_state
finished-Alike supply trap_frame sp_el0 r parent s = record {
  node = refl;
  run_queue = refl;
  dead_queue = refl;
  current = refl;
  idle_thread = refl;
  id = λ u.
      field_kept (λ (t : Thread). t.id) s.thread supply.child
        (fork_state supply.fork_entry trap_frame sp_el0 parent (s.thread supply.child)) u refl;
  alive = λ u.
      field_kept (λ (t : Thread). t.alive) s.thread supply.child
        (fork_state supply.fork_entry trap_frame sp_el0 parent (s.thread supply.child)) u refl;
}

-- A child is made: `m` is the state at the call, `r` the program, and `out` the result.
pub record Forked (supply : Supply) (trap_frame r : ℕ) (cur : Runner) (xs ds : List ℕ) (m : Machine)
    (out : Option Machine) : Type 0 where
  pub after : Machine
  pub result : out ≡ some after
  pub stacks :
      StacksCopied trap_frame (parent_of m.system) (made supply m.system) m.memory after.memory
  pub number : frame_word trap_frame 0 after.memory ≡ m.system.total_thread
  pub user_sp :
      (after.system.thread supply.child).thread_state state_user_sp
      ≡ user_top (made supply m.system) + (m.sp_el0 - user_top (parent_of m.system))
  pub kernel_sp :
      (after.system.thread supply.child).thread_state state_kernel_sp
      ≡ child_frame trap_frame (parent_of m.system) (made supply m.system)
  pub resumes : (after.system.thread supply.child).thread_state state_lr ≡ supply.fork_entry
  pub handlers :
      (i : ℕ)
      → i < num_signals
      → (after.system.thread supply.child).signal_handlers i
        ≡ (parent_of m.system).signal_handlers i
  pub shared : after.system.region r ≡ add_ref (m.system.region r)
  pub queued : Represents after.system cur (xs ++ supply.child ∷ []) ds

-- The stack pointer is in the user stack of the parent.
pub record PointerIn (sp_el0 : ℕ) (parent child : Thread) : Type 0 where
  pub above : user_top parent ≤ sp_el0
  pub below : sp_el0 < user_top parent + user_stack_size
  pub high : sp_el0 < 2 ^ 64
  pub child_high : user_top child + user_stack_size < 2 ^ 64

moved_pointer :
    (sp_el0 : ℕ) (parent child : Thread)
    → PointerIn sp_el0 parent child
    → moved sp_el0 (user_top parent) (user_top child) ≡ user_top child + (sp_el0 - user_top parent)
unfolding moved
moved_pointer sp_el0 parent child p = omega (arith, p.above, p.below, p.high, p.child_high)

fork_state_handler :
    (fork_entry trap_frame sp_el0 : ℕ) (parent child : Thread) (i : ℕ)
    → i < num_signals
    → (fork_state fork_entry trap_frame sp_el0 parent child).signal_handlers i
      ≡ parent.signal_handlers i
unfolding fork_state
fork_state_handler fork_entry trap_frame sp_el0 parent child i small =
    let known : ltb i num_signals ≡ true = ground arith in rw known refl

-- With its stacks and those of the child apart, a thread with a program forks: the child waits behind the others, it has the stacks, the
-- frame and the handlers of the parent, with 0 as the result where the parent gets its number, its
-- registers are at the same offsets in its own stacks, and the program has one reference more.
pub fork_s-Forked :
    (supply : Supply) (trap_frame r : ℕ) (cur : Runner) (xs ds : List ℕ) (m : Machine)
    → Represents m.system cur xs ds
    → IsFresh supply.child m.system cur xs ds
    → 1 < m.system.total_thread
    → m.system.total_thread < 2 ^ 32
    → suc (length xs) < 2 ^ 32
    → (parent_of m.system).prog ≡ some r
    → StacksApart trap_frame (parent_of m.system) (made supply m.system)
    → PointerIn m.sp_el0 (parent_of m.system) (made supply m.system)
    → Forked supply trap_frame r cur xs ds m (fork_s supply trap_frame m)
unfolding finished mask_timer fork_state
fork_s-Forked supply trap_frame r cur xs ds m rep fresh high low room prog apart pointer =
    let s = m.system in
    let parent = parent_of s in
    let child = made supply s in
    let s₂ = fork_thread supply s in
    let not_self : s.current ≢ supply.child = λ e. fresh.not_running (sym rep.current ∙ e) in
    let end = finished supply trap_frame m.sp_el0 r parent s₂ in
    let copied =
      copy_stacks-StacksCopied trap_frame parent child m.memory apart
        (omega (arith, made_id supply s, low)) in
    let self =
      update_self s₂.thread supply.child
        (fork_state supply.fork_entry trap_frame m.sp_el0 parent child) in
    record {
      after = record m { system = end; memory = copy_stacks trap_frame parent child m.memory };
      result = fork_s-finished supply trap_frame r m parent (parent_stays supply s not_self) prog;
      stacks = copied;
      number = copied.parent_value ∙ made_id supply s;
      user_sp =
          ap (λ (t : Thread). t.thread_state state_user_sp) self
          ∙ moved_pointer m.sp_el0 parent child pointer;
      kernel_sp =
          ap (λ (t : Thread). t.thread_state state_kernel_sp) self
          ∙ moved_frame trap_frame parent child apart;
      resumes = ap (λ (t : Thread). t.thread_state state_lr) self;
      handlers = λ i small.
          ap (λ (t : Thread). t.signal_handlers i) self
          ∙ fork_state_handler supply.fork_entry trap_frame m.sp_el0 parent child i small;
      shared =
          update_self s₂.region r (add_ref (s₂.region r))
          ∙ ap (λ (g : ℕ → RcRegion). add_ref (g r)) (region_stays supply s);
      queued =
          Represents-Alike s₂ end cur (xs ++ supply.child ∷ []) ds
            (finished-Alike supply trap_frame m.sp_el0 r parent s₂)
            (fork_thread-Represents supply s cur xs ds rep fresh high room);
    }
