-- ===== src/Signals.antt =====
-- lib/thread/signals.c, with `sigreturn_s` of lib/exception/syscall.c: the handlers of signals.
-- Memory is a function from an address to a byte, and a trap frame is the address of its first word.
pub mod Frames
pub mod Page
pub mod Restore
mod Tests
use oscs25_labs.Base.{ℕ, ◌+◌, ◌-◌, ◌*◌, ◌%◌, ◌^◌, Option, none, some, not, ltb, ◌==◌, if◌then◌else◌}
use oscs25_labs.Pages.{Pages, page_alloc, page_free}
use oscs25_labs.Threads.Defs.{System, num_signals, get_stack_bottom, get_stack_top, set_thread}
use oscs25_labs.Threads.Ending.{kill_curr_thread}
use oscs25_labs.Words.{memcpy}
use oscs25_labs.Words.Access.{word_at, store_word}

abbrev pub signal_handler_stack_size : ℕ
signal_handler_stack_size = 0x1000

abbrev pub trap_frame_size : ℕ
trap_frame_size = 272

abbrev pub trap_frame_num_elements : ℕ
trap_frame_num_elements = 34

abbrev pub lr_idx : ℕ
lr_idx = 30

abbrev pub spsr_idx : ℕ
spsr_idx = 31

abbrev pub elr_idx : ℕ
elr_idx = 32

-- The threads, memory, and the stack pointer of EL0.
pub record Machine : Type 0 where
  pub system : System
  pub memory : ℕ → ℕ
  pub sp_el0 : ℕ

-- `trap_frame[idx]`, and an assignment to it.
unfoldable pub frame_word : (trap_frame idx : ℕ) → (ℕ → ℕ) → ℕ
frame_word trap_frame idx memory = word_at 8 (trap_frame + 8 * idx) memory

unfoldable pub set_frame_word : (trap_frame idx value : ℕ) → (ℕ → ℕ) → ℕ → ℕ
set_frame_word trap_frame idx value memory = store_word 8 (trap_frame + 8 * idx) value memory

-- The default handler of a signal that is smaller than `NUM_SIGNALS`; `none` is a call of `NULL`.
unfoldable pub default_signal_handler : (signal : ℕ) → System → Option System
default_signal_handler signal s = if signal == 9 then some (kill_curr_thread s) else none

unfoldable pub with_system : Machine → Option System → Option Machine
with_system m none = none
with_system m (some s) = some (record m { system = s })

-- The stack pointer and the frame are saved at the end of a new page; `stack` is the address of the
-- word for the pointer.
unfoldable pub save_frame : (trap_frame stack : ℕ) → Machine → Machine
save_frame trap_frame stack m =
    let saved = stack - 8 * trap_frame_num_elements in
    record m {
      memory = memcpy saved trap_frame trap_frame_size (store_word 8 stack m.sp_el0 m.memory);
      sp_el0 = saved;
    }

unfoldable pub enter_handler : (exit_signal_handler handler trap_frame : ℕ) → (ℕ → ℕ) → ℕ → ℕ
unfolding set_frame_word
enter_handler exit_signal_handler handler trap_frame memory =
    set_frame_word trap_frame spsr_idx 0x340 (
      set_frame_word trap_frame elr_idx handler
        (set_frame_word trap_frame lr_idx exit_signal_handler memory))

unfoldable pub set_pages : Pages → System → System
set_pages p s = record s { pages = p }

-- The part for a registered handler.
unfoldable pub run_registered : (exit_signal_handler handler trap_frame : ℕ) → Machine → Machine
unfolding save_frame enter_handler set_pages
run_registered exit_signal_handler handler trap_frame m =
    let s = m.system in
    let (page, pages') = page_alloc signal_handler_stack_size s.pages in
    let saved =
      save_frame trap_frame (get_stack_bottom page signal_handler_stack_size)
        (record m { system = set_pages pages' s }) in
    record saved { memory = enter_handler exit_signal_handler handler trap_frame saved.memory }

-- The signal is marked as handled first.
unfoldable pub clear_signal : System → System
clear_signal s =
    let curr = s.thread s.current in
    set_thread s.current (record curr { last_signal = num_signals }) s

-- `none` is undefined: a signal outside the table, or a call of `NULL`.
unfoldable pub handle_signal : (exit_signal_handler trap_frame : ℕ) → Machine → Option Machine
unfolding with_system default_signal_handler run_registered clear_signal
handle_signal exit_signal_handler trap_frame m =
    let s = m.system in
    let curr = s.thread s.current in
    let signal = curr.last_signal in
    let m' = record m { system = clear_signal s } in
    if not (ltb signal num_signals)
    then none
    else if curr.signal_handlers signal == 0
    then with_system m' (default_signal_handler signal (clear_signal s))
    else some (run_registered exit_signal_handler (curr.signal_handlers signal) trap_frame m')

-- The system call at the end of a handler, whose stack pointer is still in the page.
unfoldable pub sigreturn_s : (trap_frame : ℕ) → Machine → Machine
unfolding set_pages
sigreturn_s trap_frame m =
    let temp_stack = get_stack_top m.sp_el0 signal_handler_stack_size in
    let stack_bottom = get_stack_bottom temp_stack signal_handler_stack_size in
    let s = m.system in
    record m {
      sp_el0 = word_at 8 stack_bottom m.memory;
      memory =
          memcpy trap_frame (stack_bottom - 8 * trap_frame_num_elements) trap_frame_size m.memory;
      system = set_pages (page_free temp_stack s.pages) s;
    }
