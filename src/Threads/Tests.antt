-- ===== src/Threads/Tests.antt =====
-- Four threads: 4 runs, 5 and 6 wait, 7 is dead; 0 is the idle thread.
use oscs25_labs.Base.{◌≡◌, refl, true, [], ◌∷◌, none, some, arith, ◌==◌, if◌then◌else◌}
use oscs25_labs.Threads.Defs.{System, Code, Clock, schedule, make_thread}
use oscs25_labs.Threads.Sample.{represents, system}
use oscs25_labs.Threads.Ending.{kill_curr_thread, kill_thread, in_run, running}
use oscs25_labs.Threads.Search.{find_thread, located}
use oscs25_labs.Threads.Reap.{kill_zombies}
use oscs25_labs.Threads.System.{rest_of}
use oscs25_labs.Threads.Steps.{user, runner, Represents, thread_of, schedule-Represents}
use oscs25_labs.Threads.Lifecycle.{kill_curr_thread-Represents, kill_thread-Represents}
use oscs25_labs.Threads.Spawn.{make_thread-Represents}
use oscs25_labs.Threads.Turns.{turns, turns-Represents}
use oscs25_labs.Threads.Find.{first_with, find_thread-first}
use oscs25_labs.Threads.Reaper.{kill_zombies-Represents}

abbrev code : Code
code = record { thread_entry = 0x80000; switch_context = 0x80100 }

abbrev clock : Clock
clock = record { current = 5; later = 6; allocated = true }

schedule-Represents_example :
    Represents
      (schedule (system none))
      (runner 0 (5 ∷ 6 ∷ 4 ∷ []))
      (rest_of (5 ∷ 6 ∷ 4 ∷ []))
      (7 ∷ [])
schedule-Represents_example =
    schedule-Represents (system none) (user 4) (5 ∷ 6 ∷ []) (7 ∷ []) (represents none) (omega arith)

kill_curr_thread-Represents_example :
    Represents
      (kill_curr_thread (system none))
      (runner 0 (5 ∷ 6 ∷ []))
      (rest_of (5 ∷ 6 ∷ []))
      (7 ∷ 4 ∷ [])
kill_curr_thread-Represents_example =
    kill_curr_thread-Represents (system none) 4 (5 ∷ 6 ∷ []) (7 ∷ []) (represents none)
      (omega arith)

kill_thread-Represents_example :
    Represents (kill_thread 6 in_run (system none)) (user 4) (5 ∷ []) (7 ∷ 6 ∷ [])
kill_thread-Represents_example =
    kill_thread-Represents (system none) (user 4) 6 (5 ∷ 6 ∷ []) (7 ∷ []) (represents none) refl
      (λ e. omega arith) (omega arith)

make_thread-Represents_example :
    Represents
      (make_thread code clock 9 0x2000 0 (some 3) (system none))
      (user 4)
      (5 ∷ 6 ∷ 9 ∷ [])
      (7 ∷ [])
make_thread-Represents_example =
    make_thread-Represents code clock 9 0x2000 0 (some 3) (system none) (user 4) (5 ∷ 6 ∷ [])
      (7 ∷ []) (represents none)
      (record {
        not_running = λ e. omega arith;
        not_idle = λ e. omega arith;
        not_waiting = refl;
        not_dead = refl;
      })
      (omega arith) (omega arith)

turns-Represents_example : Represents (turns 2 (system none)) (user 6) (4 ∷ 5 ∷ []) (7 ∷ [])
turns-Represents_example =
    turns-Represents (5 ∷ []) 6 [] (7 ∷ []) 4 (system none) (represents none) (omega arith)

find_thread-first_example : find_thread 6 (system none) ≡ (
    if 6 == ((system none).thread (thread_of (user 4))).id
    then some (thread_of (user 4), running)
    else located in_run (first_with 6 (5 ∷ 6 ∷ []) (system none)))
find_thread-first_example =
    find_thread-first 6 (system none) (user 4) (5 ∷ 6 ∷ []) (7 ∷ []) (represents none) refl

kill_zombies-Represents_example :
    (s' : System) × (kill_zombies (system (some 3)) ≡ some s')
    × Represents s' (user 4) (5 ∷ 6 ∷ []) []
kill_zombies-Represents_example =
    kill_zombies-Represents (system (some 3)) (user 4) (5 ∷ 6 ∷ []) (7 ∷ []) (represents (some 3))
      ((3, refl), tt)
