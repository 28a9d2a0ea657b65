-- ===== src/Threads/Sample.antt =====
-- A concrete state of the threads for the tests: 4 runs, 5 and 6 wait, 7 is dead; 0 is the idle
-- thread.
use oscs25_labs.Base.{
  ℕ, ◌≡◌, refl, arith, mem, ◌∷◌, true, false, [], Option, none, some, ◌==◌, if◌then◌else◌, update,
}
use oscs25_labs.Template.Links.{Links}
use oscs25_labs.Template.Queue.Refine.{Unlinked}
use oscs25_labs.Threads.Steps.{user, Represents}
use oscs25_labs.Threads.Defs.{System, Thread, new_workload, num_signals}

-- The number of a thread is its identifier, and only 7 is dead.
abbrev pub thread : (program : Option ℕ) → ℕ → Thread
thread program t = record {
  id = t;
  priority = 0;
  prog = program;
  task = 0x1000;
  args = 0;
  thread_state = λ _. 0;
  excepts = new_workload;
  signal_handlers = λ _. 0;
  last_signal = num_signals;
  alive = if t == 7 then false else true;
}

abbrev pub links : Links
links = record { prev = update (λ _. none) 6 (some 5); next = update (λ _. none) 5 (some 6) }

abbrev pub system : (program : Option ℕ) → System
system program = record {
  thread = thread program;
  node = links;
  run_queue = record { front = some 5; back = some 6; size = 2 };
  wait_queue = record { front = none; back = none; size = 0 };
  dead_queue = record { front = some 7; back = some 7; size = 1 };
  idle_thread = 0;
  total_thread = 8;
  switch_interval = 100;
  current = 4;
  except = record {
    tasks = record {
      next = λ _. none;
      handler = λ _. 0;
      trap_frame = λ _. 0;
      node = links;
      priority = λ _. 0;
      task_free_list = none;
    };
    queues = record {
      preemptor = λ _. none;
      head = λ _. none;
      node = links;
      queue_free_list = none;
    };
    base_queue = none;
    timer_mask = false;
    uart_mask = false;
  };
  timer = record { events = []; initialized = true; cval = 0; enabled = true; timer_mask = false };
  pages = record { status = λ _. 0; idx = λ i. i; links = links; free_list = λ _. none };
  region = λ _. record { count = 2; mem = 0 };
}

unlinked : (a : ℕ) → mem a (5 ∷ 6 ∷ []) ≡ false → mem a (7 ∷ []) ≡ false → Unlinked a links
unlinked a out out' =
    let not_five : (a == 5) ≡ false = ground arith in
    let not_six : (a == 6) ≡ false = ground arith in (rw not_six refl, rw not_five refl)

apart : (a : ℕ) → mem a (5 ∷ 6 ∷ []) ≡ true → mem a (7 ∷ []) ≡ false
apart a m = ground arith

pub represents : (program : Option ℕ) → Represents (system program) (user 4) (5 ∷ 6 ∷ []) (7 ∷ [])
represents program = record {
  system = record {
    run = record {
      chain = (refl, refl, (refl, refl, tt));
      distinct = (refl, (refl, tt));
      front = refl;
      back = refl;
      size = refl;
      small = omega arith;
    };
    dead = record {
      chain = (refl, refl, tt);
      distinct = (refl, tt);
      front = refl;
      back = refl;
      size = refl;
      small = omega arith;
    };
    apart = apart;
    rest = unlinked;
  };
  current = refl;
  runs = (omega arith, refl, refl, refl);
  idle = omega arith;
  waits = λ t m. (ground arith, ground arith);
  dead = λ t m. ground arith;
}
