-- ===== src/Syscalls/Table.antt =====
-- The table of the system calls, and the dispatch by the number in the trap frame.
use oscs25_labs.Base.{
  ℕ, ◌%◌, ◌/◌, ◌^◌, Option, none, some, List, ltb, ◌==◌, ◌>>=◌, if◌then◌else◌, update,
}
use oscs25_labs.Uart.{Uart}
use oscs25_labs.Signals.{Machine, frame_word, sigreturn_s}
use oscs25_labs.Syscalls.Calls.{
  getpid_s, uart_read_s, uart_write_s, exit_s, mbox_call_s, kill_s, signal_s, kill_with_signal_s,
}
use oscs25_labs.Syscalls.Fork.{Supply, exec_s, fork_s}

abbrev pub num_syscall : ℕ
num_syscall = 16

abbrev pub syscall_idx : ℕ
syscall_idx = 8

-- What the calls change and use.
pub record Kernel : Type 0 where
  pub machine : Machine
  pub uart : Uart
  pub supply : Supply
  pub answer : ℕ → (ℕ → ℕ) → ℕ → ℕ
  pub received : List ℕ

-- A `SyscallHandler`, which takes the trap frame; `none` of its result is undefined.
abbrev pub SyscallHandler : Type 0
SyscallHandler = (trap_frame : ℕ) → Kernel → Option Kernel

abbrev pub on_machine : (ℕ → Machine → Option Machine) → SyscallHandler
on_machine call trap_frame k = call trap_frame k.machine >>= (λ m. some (record k { machine = m }))

abbrev pub on_uart : (ℕ → Machine → Uart → Option (Machine × Uart)) → SyscallHandler
on_uart call trap_frame k =
    call trap_frame k.machine k.uart >>= (λ r. some (record k { machine = r.0; uart = r.1 }))

unfoldable pub register_syscall :
    (idx : ℕ) → SyscallHandler → (ℕ → Option SyscallHandler) → ℕ → Option SyscallHandler
register_syscall idx handler handlers = update handlers idx (some handler)

unfoldable pub register_syscall_handlers : (ℕ → Option SyscallHandler) → ℕ → Option SyscallHandler
unfolding register_syscall
register_syscall_handlers handlers =
    register_syscall 10 (on_machine (λ f m. some (sigreturn_s f m))) (
      register_syscall 9 (on_machine (λ f m. some (kill_with_signal_s f m))) (
        register_syscall 8 (on_machine signal_s) (
          register_syscall 7 (on_machine (λ f m. some (kill_s f m))) (
            register_syscall 6 (λ f k. on_machine (mbox_call_s k.answer k.received) f k)
              (register_syscall 5 (on_machine (λ f m. some (exit_s m))) (
                register_syscall 4 (λ f k. on_machine (fork_s k.supply) f k)
                  (register_syscall 3 (λ f k. on_machine (exec_s k.supply) f k)
                    (register_syscall 2 (on_uart uart_write_s) (
                      register_syscall 1 (on_uart uart_read_s) (
                        register_syscall 0 (on_machine (λ f m. some (getpid_s f m)))
                          handlers))))))))))

-- `none` in the table is `NULL`.
unfoldable pub init_syscalls : ℕ → Option SyscallHandler
unfolding register_syscall_handlers
init_syscalls = register_syscall_handlers (λ _. none)

unfoldable pub call_handler : Option SyscallHandler → SyscallHandler
call_handler none trap_frame k = none
call_handler (some handler) trap_frame k = handler trap_frame k

-- The number is not compared with the size of the table: a read behind it is undefined.
unfoldable pub invoke_syscall : (handlers : ℕ → Option SyscallHandler) → SyscallHandler
unfolding call_handler
invoke_syscall handlers trap_frame k =
    let syscall = frame_word trap_frame syscall_idx k.machine.memory in
    let called = call_handler (handlers syscall) trap_frame k in
    if ltb syscall num_syscall then called else none

-- `lower_sync_handler`: another exception than a system call is printed, and nothing goes on.
unfoldable pub lower_sync_handler : (handlers : ℕ → Option SyscallHandler) → SyscallHandler
unfolding invoke_syscall
lower_sync_handler handlers trap_frame k =
    let called = invoke_syscall handlers trap_frame k in
    let ec = frame_word trap_frame 33 k.machine.memory / 2 ^ 26 % 2 ^ 6 in
    if ec == 0b010101 then called else none
