-- ===== src/Signals/Tests.antt =====
-- Thread 4 has a handler at 0x8000 for the signal 3, which waits; the heap is that of Pages/Sample,
-- and the trap frame is at 0x9000.
use oscs25_labs.Base.{◌≡◌, refl, none, some, arith, ◌==◌, if◌then◌else◌}
use oscs25_labs.Pages.{
  page_alloc, calculate_order, order_loop, find_level, alloc_at, take_block, free_list_pop,
  split_loop, to_page_address,
}
use oscs25_labs.Threads.Defs.{System}
use oscs25_labs.Threads.Sample.{thread, system}
use oscs25_labs.Signals.{Machine, handle_signal, sigreturn_s, run_registered, clear_signal}
use oscs25_labs.Signals.Frames.{handler_page}
use oscs25_labs.Signals.Page.{OnPage, handle_signal-OnPage}
use oscs25_labs.Pages.Sample.{order, pages, heap}
use oscs25_labs.Signals.Restore.{Restored, sigreturn_s-Restored}

abbrev signalled : System
signalled = record (system none) {
  thread = λ t. record (thread none t) {
    last_signal = 3;
    signal_handlers = λ i. if i == 3 then 0x8000 else 0;
  };
  pages = pages;
}

abbrev machine : Machine
machine = record { system = signalled; memory = λ a. a; sp_el0 = 0x7000 }

given : handler_page signalled ≡ 0x4000
unfolding page_alloc calculate_order order_loop find_level alloc_at take_block free_list_pop
    split_loop to_page_address
given = refl

handle_signal-OnPage_example :
    OnPage 0x400 0x9000 order machine (handle_signal 0x400 0x9000 machine)
handle_signal-OnPage_example =
    handle_signal-OnPage 0x400 0x9000 machine heap (omega (arith, given)) (omega arith)
      (omega arith) (omega arith) (omega arith) (omega arith) (omega (arith, given))

abbrev in_handler : Machine
in_handler = run_registered 0x400 0x8000 0x9000 (record machine { system = clear_signal signalled })

enters : handle_signal 0x400 0x9000 machine ≡ some in_handler
unfolding handle_signal
enters = refl

-- The handler has moved its stack pointer within the page.
abbrev leaving : Machine
leaving = record in_handler { sp_el0 = 0x4e00 }

sigreturn_s-Restored_example :
    Restored
      (handler_page signalled)
      0x7000
      0x9000
      0x9000
      machine.memory
      leaving
      (sigreturn_s 0x9000 leaving)
sigreturn_s-Restored_example =
    sigreturn_s-Restored 0x400 0x9000 0x9000 machine in_handler leaving (omega arith) (omega arith)
      (omega arith) (omega arith) (omega arith) (omega (arith, given)) enters (λ a lo hi. refl)
      (omega (arith, given)) (omega (arith, given)) (omega (arith, given))
