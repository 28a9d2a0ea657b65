-- ===== src/Syscalls/Calls.antt =====
-- The system calls but `fork_s`, `exec_s` and `sigreturn_s`. A trap frame is the address of its first
-- word; the arguments of a call are in its first words.
use oscs25_labs.Base.{
  ℕ, ◌+◌, ◌-◌, ◌%◌, ◌^◌, ◌&&◌, Option, none, some, List, ltb, leb, ◌==◌, ◌>>=◌, if◌then◌else◌,
}
use oscs25_labs.Mailbox.{mailbox_call, mailbox_message}
use oscs25_labs.Threads.Defs.{System, num_signals, set_thread, curr_thread_regis_signal}
use oscs25_labs.Threads.Ending.{Location, kill_curr_thread, kill_thread}
use oscs25_labs.Threads.Search.{find_thread}
use oscs25_labs.Signals.{Machine, frame_word, set_frame_word}
use oscs25_labs.Uart.{Uart, read_to_buf, send_from_buf}

unfoldable pub set_return_value : (trap_frame result : ℕ) → Machine → Machine
set_return_value trap_frame result m = record m {
  memory = set_frame_word trap_frame 0 result m.memory;
}

-- An argument as an `int` or a `size_t`.
unfoldable pub argument : (trap_frame idx : ℕ) → Machine → ℕ
argument trap_frame idx m = frame_word trap_frame idx m.memory % 2 ^ 32

unfoldable pub getpid_s : (trap_frame : ℕ) → Machine → Machine
getpid_s trap_frame m = set_return_value trap_frame (m.system.thread m.system.current).id m

-- The bytes of a buffer take the place of those in memory.
unfoldable pub write_back : (buf size : ℕ) → (buffer : ℕ → ℕ) → Machine → Machine
write_back buf size buffer m = record m {
  memory = λ a. if leb buf a && ltb a (buf + size) then buffer (a - buf) else m.memory a;
}

unfoldable pub uart_read_s : (trap_frame : ℕ) → Machine → Uart → Option (Machine × Uart)
uart_read_s trap_frame m u = do
  let buf = frame_word trap_frame 0 m.memory
  let size = argument trap_frame 1 m
  (total_read, buffer, u') ← read_to_buf (λ i. m.memory (buf + i)) size u
  some (set_return_value trap_frame total_read (write_back buf size buffer m), u')

unfoldable pub uart_write_s : (trap_frame : ℕ) → Machine → Uart → Option (Machine × Uart)
uart_write_s trap_frame m u = do
  let buf = frame_word trap_frame 0 m.memory
  (total_send, u') ← send_from_buf (λ i. m.memory (buf + i)) (argument trap_frame 1 m) u
  some (set_return_value trap_frame total_send m, u')

unfoldable pub exit_s : Machine → Machine
exit_s m = record m { system = kill_curr_thread m.system }

-- `answer` is what the video core does to memory for a message.
unfoldable pub mbox_call_s :
    (answer : ℕ → (ℕ → ℕ) → ℕ → ℕ)
    → (received : List ℕ) → (trap_frame : ℕ) → Machine
    → Option Machine
mbox_call_s answer received trap_frame m = do
  let mbox = argument trap_frame 1 m
  result ← mailbox_call received mbox
  some (
      set_return_value trap_frame result
        (record m { memory = answer (mailbox_message mbox) m.memory }))

unfoldable pub kill_found : Option (ℕ × Location) → System → System
kill_found none s = s
kill_found (some (found, location)) s = kill_thread found location s

unfoldable pub kill_pid : (pid : ℕ) → System → System
unfolding kill_found
kill_pid pid s =
    if pid == (s.thread s.current).id then kill_curr_thread s else kill_found (find_thread pid s) s

unfoldable pub kill_s : (trap_frame : ℕ) → Machine → Machine
unfolding kill_pid
kill_s trap_frame m = record m { system = kill_pid (argument trap_frame 0 m) m.system }

-- `none` is a write outside the array.
unfoldable pub signal_s : (trap_frame : ℕ) → Machine → Option Machine
signal_s trap_frame m =
    let signal = argument trap_frame 0 m in
    if ltb signal num_signals
    then some (record m {
      system = curr_thread_regis_signal signal (frame_word trap_frame 1 m.memory) m.system;
    })
    else none

unfoldable pub signal_found : (signal : ℕ) → Option (ℕ × Location) → System → System
signal_found signal none s = s
signal_found signal (some (found, location)) s =
    set_thread found (record (s.thread found) { last_signal = signal }) s

unfoldable pub kill_with_signal_s : (trap_frame : ℕ) → Machine → Machine
unfolding signal_found
kill_with_signal_s trap_frame m =
    let s = m.system in
    record m {
      system = signal_found (argument trap_frame 1 m) (find_thread (argument trap_frame 0 m) s) s;
    }
