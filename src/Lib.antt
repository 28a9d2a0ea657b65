-- ===== src/Lib.antt =====
-- A verification library for the kernel of OSCs25-Labs, a small kernel for the Raspberry Pi 3 in C.
--
-- The kernel allocates page frames with a buddy allocator (lib/allocator/page_allocator.c), whose
-- free blocks lie in intrusive lists (lib/template/list.c); queues of threads and of free objects are
-- built of the same lists (lib/template/queue.c). Interrupts become tasks that are queued by priority
-- (lib/exception/exception_c.c) and call the handlers of the mini UART (lib/mini_uart.c) and of the
-- core timer (lib/timer/timer.c), which switches between the threads (lib/thread/thread.c). A thread
-- runs a program of the ram disk (lib/file_sys/initramfs.c), whose place the device tree says
-- (lib/devicetree/dtb.c), and makes system calls (lib/exception/syscall.c). The shell reads lines
-- from the UART and takes them apart with lib/str_utils.c.
--
-- The modules, and the code that each is about:
--   Base      shared names: tests on numbers, lists of identifiers, binary digits
--   Template  lib/template: Links is list.c, Queue is queue.c
--   Pages     lib/allocator/page_allocator.c: `page_alloc`, `page_free`, `is_allocated`,
--             `init_page_array`; Pages/Reserve has `memory_reserve` and `segment_block_seq`
--   Uart      lib/mini_uart.c: the ring buffers, line input, the interrupt handler; Uart/Setup has
--             `init_uart`, Uart/Traffic the calls of all of them in any order, each one step
--   Timer     lib/timer/timer.c: the queue of events and the handler
--   Except    lib/exception/exception_c.c: pools, `enqueue_task`; Except/Exec has `exec_queue` and
--             `irq_handler`, Except/Setup `init_exception`
--   Regions   lib/allocator/re_region.c, simple_alloc.c, startup_allocator.c
--   Slabs     lib/allocator/dynamic_allocator.c: a slab and its bitmap, Slabs/Pools has `dyna_alloc`
--   Threads   lib/thread/thread.c: threads, scheduler, `find_thread`, `kill_zombies`
--   Syscalls  lib/exception/syscall.c: Calls and Fork have the calls, Table the dispatch
--   Mailbox   lib/mailbox/mailbox.c: `mailbox_call`
--   Shell     lib/simple_shell.c: the words of a line, the table of commands
--   Dtb       lib/devicetree/dtb.c: the parser of the device tree
--   Signals   lib/thread/signals.c, and `sigreturn_s` of lib/exception/syscall.c; Signals/Frames is
--             about the memory that `handle_signal` leaves, Signals/Page about the page it takes
--   Ramdisk   lib/file_sys/initramfs.c: the walks over the cpio archive, `load_program`; an archive
--             here lies below 2 ^ 62, and its names, with their NUL, and files are below 2 ^ 24
--             bytes, the terminator's too, since `carrtoi` reads six of the eight digits of a field
--   Strings   lib/str_utils.c: numerals, comparison, tokens; Strings/Reads says which number a
--             string stands for, Strings/Total that each does, Strings/Format works on a buffer,
--             Strings/Reverse is about `strrev`
--   Words     lib/utils.c: alignment, byte order, copies; Words/Access has words in memory
-- A definition has the name of the C function or macro that it models; helpers stand for the body of
-- a loop or the code behind an early return. A `static` or a shared object is a record that the
-- functions take and return. Objects that are linked by pointers are identifiers, with a function for
-- each field, so that a write is an update of one of these functions; `none` is `NULL`.
--
-- Numbers are natural numbers, with the wrap-around of 32 or 64 bits written out (`size_t` has 32
-- bits here); a `PageStatus`, which is an `int`, is its pattern of 32 bits.
--
-- Fuel: the order of a size takes at most 33 rounds, and a theorem says what it gives; the search of
-- `page_alloc` has one round for each level, its split one for each order of the block found, and
-- the merges of `page_free` one for each order; `echo_read_line` takes one byte a round; the handler
-- of the timer needs one round more than events that are due, if the callbacks add only later
-- events, and the run of a queue one more than its tasks; a walk over the archive takes one round a
-- file and one for the terminator, and the parser of the device tree one a token. A loop whose fuel
-- may run out has `none` for that case.
--
-- Parameters: the bytes and the room at the UART, the count of the clock, the callbacks of timer
-- events and of interrupt tasks, the answers of the video core, and whether `dyna_alloc` returns
-- memory.
--
-- Not modelled: logs and reports on the UART, the waits of the set-up of devices, assembly,
-- the requests to the video core, the commands of the shell, and interrupts inside
-- `async_read_data` and `async_send_data`: their updates of `len` are not atomic, and an interrupt
-- between the read and the write of `len` would lose bytes. A callback of a timer event returns: a
-- switch of threads inside one, from which the handler does not come back, is left out.
-- `thread_init` leaves out that `dyna_alloc` may take pages itself.
pub mod Base
pub mod Dtb
pub mod Except
pub mod Mailbox
pub mod Pages
pub mod Ramdisk
pub mod Regions
pub mod Shell
pub mod Signals
pub mod Slabs
pub mod Strings
pub mod Syscalls
pub mod Template
pub mod Threads
pub mod Timer
pub mod Uart
pub mod Words
