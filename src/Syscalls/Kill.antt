-- ===== src/Syscalls/Kill.antt =====
-- `kill_s` against the lists of the threads that wait and of those that are dead.
use oscs25_labs.Base.{
  ℕ, suc, ◌<◌, ◌^◌, ◌≡◌, ◌≢◌, refl, sym, ap, Bool, true, false, List, [], ◌∷◌, ◌++◌, Option, none,
  some, mem, length, remove, ne_of_mem, arith, ◌==◌, Bool-cases, inl, inr,
}
use oscs25_labs.Threads.Defs.{System}
use oscs25_labs.Threads.Ending.{in_run}
use oscs25_labs.Threads.Search.{located}
use oscs25_labs.Threads.System.{rest_of}
use oscs25_labs.Threads.Steps.{Represents, user, runner}
use oscs25_labs.Threads.Lifecycle.{kill_curr_thread-Represents, kill_thread-Represents}
use oscs25_labs.Threads.Find.{first_with, find_thread-first}
use oscs25_labs.Signals.{frame_word}
use oscs25_labs.Syscalls.Table.{
  Kernel, syscall_idx, invoke_syscall, call_handler, init_syscalls, register_syscall_handlers,
  register_syscall,
}
use oscs25_labs.Syscalls.Calls.{argument, kill_found, kill_pid, kill_s}

-- The state `s'` after the thread `t` kills the thread with a number: itself, or the first one found
-- among those that wait, or none.
abbrev pub AfterKill :
    (itself : Bool) → (found : Option ℕ) → System → (t : ℕ) → (xs ds : List ℕ) → System → Type 0
AfterKill true found s t xs ds s' =
    Represents s' (runner s.idle_thread xs) (rest_of xs) (ds ++ t ∷ [])
AfterKill false none s t xs ds s' = Represents s' (user t) xs ds
AfterKill false (some u) s t xs ds s' = Represents s' (user t) (remove u xs) (ds ++ u ∷ [])

first_with-mem :
    (xs : List ℕ) (pid : ℕ) (s : System) (u : ℕ) → first_with pid xs s ≡ some u → mem u xs ≡ true
first_with-mem [] pid s u e = grind arith
first_with-mem (x ∷ xs) pid s u e = let rest = first_with-mem xs pid s u in grind arith

kill_found-AfterKill :
    (found : Option ℕ) (pid : ℕ) (s : System) (t : ℕ) (xs ds : List ℕ)
    → Represents s (user t) xs ds
    → suc (length ds) < 2 ^ 32
    → first_with pid xs s ≡ found
    → AfterKill false found s t xs ds (kill_found (located in_run found) s)
unfolding kill_found located
kill_found-AfterKill none pid s t xs ds r room e = r
kill_found-AfterKill (some u) pid s t xs ds r room e =
    let waits = first_with-mem xs pid s u e in
    let (high, alive, out_run, out_dead) = r.runs in
    let other : t ≢ u = λ same. ne_of_mem u t xs waits out_run (sym same) in
    kill_thread-Represents s (user t) u xs ds r waits other room

pub kill_pid-AfterKill :
    (pid : ℕ) (s : System) (t : ℕ) (xs ds : List ℕ)
    → Represents s (user t) xs ds
    → s.wait_queue.size ≡ 0
    → suc (length ds) < 2 ^ 32
    → AfterKill (pid == (s.thread t).id) (first_with pid xs s) s t xs ds (kill_pid pid s)
unfolding kill_pid
kill_pid-AfterKill pid s t xs ds r empty room =
    let at : (pid == (s.thread s.current).id) ≡ (pid == (s.thread t).id) =
      ap (λ (c : ℕ). pid == (s.thread c).id) r.current in
    elim (Bool-cases (pid == (s.thread t).id)) [
      | inl itself ↦ rw (at, itself) (kill_curr_thread-Represents s t xs ds r room)
      | inr other ↦
          rw (at, find_thread-first pid s (user t) xs ds r empty, other)
            (kill_found-AfterKill (first_with pid xs s) pid s t xs ds r room refl)
    ]

-- The system call `kill` of a thread `t`, with a number in the first word of the frame: `t` ends if
-- the number is its own; else the first waiting thread that has it is taken out of those that wait
-- and joins the dead ones, and without one all stays.
pub invoke_syscall-AfterKill :
    (trap_frame : ℕ) (k : Kernel) (t : ℕ) (xs ds : List ℕ)
    → frame_word trap_frame syscall_idx k.machine.memory ≡ 7
    → Represents k.machine.system (user t) xs ds
    → k.machine.system.wait_queue.size ≡ 0
    → suc (length ds) < 2 ^ 32
    → (k' : Kernel) × (invoke_syscall init_syscalls trap_frame k ≡ some k')
      × AfterKill
          (argument trap_frame 0 k.machine == (k.machine.system.thread t).id)
          (first_with (argument trap_frame 0 k.machine) xs k.machine.system)
          k.machine.system
          t
          xs
          ds
          k'.machine.system
unfolding invoke_syscall call_handler init_syscalls register_syscall_handlers register_syscall
    kill_s
invoke_syscall-AfterKill trap_frame k t xs ds number r empty room =
    let killed =
      kill_pid-AfterKill (argument trap_frame 0 k.machine) k.machine.system t xs ds r empty room in
    (record k { machine = kill_s trap_frame k.machine }, rw number refl, killed)
