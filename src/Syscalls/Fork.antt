-- ===== src/Syscalls/Fork.antt =====
-- `fork_s` and `exec_s`.
use oscs25_labs.Base.{
  ℕ, zero, suc, ◌+◌, ◌-◌, ◌%◌, ◌^◌, Bool, true, false, Option, none, some, List, [], ◌∷◌, ltb, ◌==◌,
  ◌>>=◌, if◌then◌else◌, update,
}
use oscs25_labs.Template.Links.{Ptr}
use oscs25_labs.Pages.{Pages}
use oscs25_labs.Regions.{RcRegion, add_ref, rc_free}
use oscs25_labs.Ramdisk.{load_program}
use oscs25_labs.Words.{memcpy}
use oscs25_labs.Threads.Defs.{
  System, Thread, Code, Clock, num_signals, state_lr, state_user_sp, state_kernel_sp,
  user_stack_size, kernel_stack_size, get_stack_top, set_thread, make_thread,
}
use oscs25_labs.Threads.Ending.{mask_timer}
use oscs25_labs.Threads.Reap.{reap_region}
use oscs25_labs.Signals.{Machine, elr_idx, frame_word, set_frame_word, set_pages}

-- What the two calls get from outside: the addresses of functions, the clock, the memory for a
-- thread, and whether `dyna_alloc` gives a region.
pub record Supply : Type 0 where
  pub code : Code
  pub clock : Clock
  pub fork_entry : ℕ
  pub child : ℕ
  pub allocated : Bool
  pub initramfs_addr : ℕ
  pub fuel : ℕ

abbrev pub user_top : Thread → ℕ
user_top th = get_stack_top (th.thread_state state_user_sp) user_stack_size

abbrev pub kernel_top : Thread → ℕ
kernel_top th = get_stack_top (th.thread_state state_kernel_sp) kernel_stack_size

-- A pointer at the same offset from `to` as `ptr` is from `base`.
unfoldable pub moved : (ptr base to : ℕ) → ℕ
moved ptr base to = (to + (ptr + 2 ^ 64 - base) % 2 ^ 64) % 2 ^ 64

-- The three copies of memory, with the return values of the child and of the parent.
unfoldable pub copy_stacks : (trap_frame : ℕ) → (parent child : Thread) → (ℕ → ℕ) → ℕ → ℕ
copy_stacks trap_frame parent child memory =
    let zeroed = set_frame_word trap_frame 0 0 memory in
    let users = memcpy (user_top child) (user_top parent) user_stack_size zeroed in
    let rest =
      (kernel_stack_size + 2 ^ 64 - (trap_frame + 2 ^ 64 - kernel_top parent) % 2 ^ 64) % 2 ^ 32 in
    let both =
      memcpy (moved trap_frame (kernel_top parent) (kernel_top child)) trap_frame rest users in
    set_frame_word trap_frame 0 child.id both

-- The registers and the handlers of the child.
unfoldable pub fork_state : (fork_entry trap_frame sp_el0 : ℕ) → (parent child : Thread) → Thread
unfolding moved
fork_state fork_entry trap_frame sp_el0 parent child = record child {
  thread_state =
      update
        (update
          (update child.thread_state state_user_sp
            (moved sp_el0 (user_top parent) (user_top child)))
          state_kernel_sp (moved trap_frame (kernel_top parent) (kernel_top child)))
        state_lr fork_entry;
  signal_handlers =
      λ i. if ltb i num_signals then parent.signal_handlers i else child.signal_handlers i;
}

-- `add_ref` of the program; `none` is a write through `NULL`.
unfoldable pub add_prog_ref : Ptr → System → Option System
add_prog_ref none s = none
add_prog_ref (some r) s = some (record s { region = update s.region r (add_ref (s.region r)) })

-- The system with the new thread, which has its own registers until `fork_state`.
unfoldable pub fork_thread : Supply → System → System
fork_thread supply s =
    let s₁ = mask_timer true s in
    let parent = s₁.thread s₁.current in
    make_thread supply.code supply.clock supply.child parent.task parent.args parent.prog s₁

unfoldable pub fork_s : Supply → (trap_frame : ℕ) → Machine → Option Machine
unfolding fork_thread
fork_s supply trap_frame m = do
  let s = fork_thread supply m.system
  let parent = s.thread s.current
  let child = s.thread supply.child
  let forked =
      set_thread supply.child (fork_state supply.fork_entry trap_frame m.sp_el0 parent child) s
  s' ← add_prog_ref parent.prog forked
  some (record m {
    system = mask_timer false s';
    memory = copy_stacks trap_frame parent child m.memory;
  })

-- The characters of a string in memory, up to its NUL.
unfoldable pub string_at : ℕ → (addr : ℕ) → (ℕ → ℕ) → Option (List ℕ)
string_at zero addr memory = none
string_at (suc n) addr memory =
    let rest = string_at n (addr + 1) memory >>= (λ cs. some (memory addr ∷ cs)) in
    if memory addr == 0 then some [] else rest

-- The name of a program; `NULL` stands for the default one.
unfoldable pub name_at : ℕ → (addr : ℕ) → (ℕ → ℕ) → Option (Option (List ℕ))
name_at n addr memory =
    let name = string_at n addr memory >>= (λ cs. some (some cs)) in
    if addr == 0 then some none else name

-- `rc_free` of the program; `none` is a write through `NULL`.
unfoldable pub free_prog : Ptr → System → Option System
free_prog none s = none
free_prog (some r) s = some (reap_region s.current r (rc_free (s.region r) s.pages) s)

-- The end of `exec_s`, with the region loaded, which is not stored in the thread; `none` is a read
-- through `NULL`.
unfoldable pub start_program :
    (trap_frame : ℕ) → Option RcRegion × Pages × (ℕ → ℕ) → Machine → Option Machine
start_program trap_frame (none, p, memory) m = none
start_program trap_frame (some new_prog, p, memory) m =
    let s = m.system in
    some (record m {
      system = set_pages p s;
      memory = set_frame_word trap_frame elr_idx new_prog.mem memory;
      sp_el0 = (s.thread s.current).thread_state state_user_sp;
    })

unfoldable pub exec_s : Supply → (trap_frame : ℕ) → Machine → Option Machine
unfolding start_program
exec_s supply trap_frame m = do
  let s = m.system
  name ← name_at supply.fuel (frame_word trap_frame 0 m.memory) m.memory
  s' ← free_prog (s.thread s.current).prog s
  loaded ← load_program supply.fuel supply.allocated supply.initramfs_addr name m.memory s'.pages
  start_program trap_frame loaded (record m { system = s' })
