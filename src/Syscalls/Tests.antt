-- ===== src/Syscalls/Tests.antt =====
-- Thread 4 runs, 5 and 6 wait, and 7 is dead. It kills the thread 6, and it forks the child 9.
use oscs25_labs.Base.{
  ℕ, ◌%◌, ◌≡◌, refl, false, true, [], ◌∷◌, none, some, arith, ◌==◌, if◌then◌else◌,
}
use oscs25_labs.Pages.{
  page_alloc, page_reserved, calculate_order, order_loop, find_level, alloc_at, take_block,
  free_list_pop, split_loop, to_page_address,
}
use oscs25_labs.Uart.{Uart}
use oscs25_labs.Threads.Defs.{System, make_thread, thread_init, initial_state, push_run}
use oscs25_labs.Threads.Ending.{mask_timer}
use oscs25_labs.Threads.Steps.{Represents, user}
use oscs25_labs.Threads.Relabel.{Represents-Alike}
use oscs25_labs.Threads.Sample.{thread, links, system, represents}
use oscs25_labs.Words.Access.{word_at}
use oscs25_labs.Signals.{Machine, frame_word}
use oscs25_labs.Syscalls.Calls.{argument}
use oscs25_labs.Syscalls.Fork.{Supply, fork_s, fork_thread, user_top, kernel_top}
use oscs25_labs.Syscalls.Child.{Forked, fork_s-Forked, made}
use oscs25_labs.Syscalls.Table.{Kernel, invoke_syscall, init_syscalls}
use oscs25_labs.Syscalls.Kill.{invoke_syscall-AfterKill}

abbrev supply : Supply
supply = record {
  code = record { thread_entry = 0x100; switch_context = 0x200 };
  clock = record { current = 10; later = 11; allocated = true };
  fork_entry = 0x300;
  child = 9;
  allocated = true;
  initramfs_addr = 4096;
  fuel = 3;
}

abbrev memory : ℕ → ℕ
memory a = if a == 0x9040 then 7 else if a == 0x9000 then 6 else 0

abbrev empty_buffer : Uart
empty_buffer = record {
  async_recv = record { buffer = λ _. 0; head = 0; len = 0 };
  async_tran = record { buffer = λ _. 0; head = 0; len = 0 };
  ier = 3;
  irq_enabled = false;
  uart_mask = true;
}

abbrev kernel : Kernel
kernel = record {
  machine = record { system = system none; memory = memory; sp_el0 = 0 };
  uart = empty_buffer;
  supply = supply;
  answer = λ _ m. m;
  received = [];
}

invoke_syscall-AfterKill_example :
    (k' : Kernel) × (invoke_syscall init_syscalls 0x9000 kernel ≡ some k')
    × Represents k'.machine.system (user 4) (5 ∷ []) (7 ∷ 6 ∷ [])
unfolding argument frame_word word_at
invoke_syscall-AfterKill_example =
    invoke_syscall-AfterKill 0x9000 kernel 4 (5 ∷ 6 ∷ []) (7 ∷ []) refl (represents none) refl
      (omega arith)

-- The stacks of the parent are at 0x80000 and 0x100000; there are free blocks of 64 and of 16 pages.
abbrev parent_state : ℕ → ℕ
parent_state i = if i == 12 then 0xbfff0 else if i == 13 then 0x10fff0 else 0

abbrev stacked : System
stacked = record (system (some 3)) {
  thread = λ t. record (thread (some 3) t) { thread_state = parent_state };
  pages = record {
    status = λ i. if i == 64 then 6 else if i == 16 then 4 else page_reserved;
    idx = λ i. i;
    links = links;
    free_list = λ k. if k == 6 then some 64 else if k == 4 then some 16 else none;
  };
}

stacked-Represents : Represents stacked (user 4) (5 ∷ 6 ∷ []) (7 ∷ [])
stacked-Represents =
    Represents-Alike (system (some 3)) stacked (user 4) (5 ∷ 6 ∷ []) (7 ∷ [])
      (record {
        node = refl;
        run_queue = refl;
        dead_queue = refl;
        current = refl;
        idle_thread = refl;
        id = λ u. refl;
        alive = λ u. refl;
      })
      (represents (some 3))

tops : (user_top (made supply stacked) ≡ 0x40000) × (kernel_top (made supply stacked) ≡ 0x10000)
unfolding fork_thread mask_timer make_thread thread_init initial_state push_run page_alloc
    calculate_order order_loop find_level alloc_at take_block free_list_pop split_loop
    to_page_address
tops = (refl, refl)

abbrev forking : Machine
forking = record { system = stacked; memory = λ a. a % 256; sp_el0 = 0x90000 }

fork_s-Forked_example :
    Forked supply 0x10fe00 3 (user 4) (5 ∷ 6 ∷ []) (7 ∷ []) forking (fork_s supply 0x10fe00 forking)
fork_s-Forked_example =
    fork_s-Forked supply 0x10fe00 3 (user 4) (5 ∷ 6 ∷ []) (7 ∷ []) forking stacked-Represents
      (record {
        not_running = omega arith;
        not_idle = omega arith;
        not_waiting = refl;
        not_dead = refl;
      })
      (omega arith) (omega arith) (omega arith) refl
      (record {
        above = omega arith;
        below = omega arith;
        high = omega arith;
        child_high = omega (arith, tops.1);
        users = omega (arith, tops.0);
        kernels = omega (arith, tops.1);
        parents = omega arith;
        children = omega (arith, tops.0, tops.1);
        from_kernel = omega (arith, tops.0);
      })
      (record {
        above = omega arith;
        below = omega arith;
        high = omega arith;
        child_high = omega (arith, tops.0);
      })
