-- ===== src/Timer.antt =====
-- lib/timer/timer.c: the events that wait for the core timer, a list in the order of their clocks.
-- The list that `events.head` begins is a list of events; the count of the clock (`get_timer`), the
-- allocation of an event and the run of a callback are arguments.
pub mod Order
pub mod Due
mod Tests
use oscs25_labs.Base.{
  ℕ, zero, suc, ◌+◌, ◌-◌, ◌%◌, ◌^◌, Bool, true, false, not, Option, none, some, List, [], ◌∷◌, ltb,
  leb, ◌==◌, ◌>>=◌, if◌then◌else◌,
}

-- `callback_func` and `args` are addresses.
pub record TimerEvent : Type 0 where
  pub target_clock : ℕ
  pub callback_func : ℕ
  pub args : ℕ

-- The queue of events, the compare register `cntp_cval_el0`, the enable bit of `cntp_ctl_el0`, and
-- `timer_mask` of the running workload.
pub record Timer : Type 0 where
  pub events : List TimerEvent
  pub initialized : Bool
  pub cval : ℕ
  pub enabled : Bool
  pub timer_mask : Bool

abbrev pub timer_interrupt_min_interval : ℕ
timer_interrupt_min_interval = 10

unfoldable pub config_core_timer : Bool → Timer → Timer
config_core_timer enable t = record t { enabled = enable; timer_mask = not enable }

unfoldable pub init_core_timer : Timer → Timer
init_core_timer t = config_core_timer false (record t { events = []; initialized = true })

-- `current` is the count that the call of `get_timer` reads.
unfoldable pub set_timeout : (current target_cval : ℕ) → Timer → Timer
set_timeout current target_cval t =
    let soon = (current + timer_interrupt_min_interval) % 2 ^ 64 in
    record t { cval = if leb target_cval soon then soon else target_cval }

-- The walk to the first event that is due later, and the links written there.
unfoldable pub insert_event : TimerEvent → List TimerEvent → List TimerEvent
insert_event new_event [] = new_event ∷ []
insert_event new_event (iter ∷ next) =
    let behind = insert_event new_event next in
    if ltb new_event.target_clock iter.target_clock then new_event ∷ iter ∷ next else iter ∷ behind

-- Whether the walk stops at the head, with `prev` still `NULL`.
unfoldable pub goes_first : TimerEvent → List TimerEvent → Bool
goes_first new_event [] = true
goes_first new_event (iter ∷ next) = ltb new_event.target_clock iter.target_clock

-- `current` and `later` are the counts at the two calls of `get_timer`; `allocated` is whether
-- `dyna_alloc` returns an event. The result is the one returned, 0 for success.
unfoldable pub add_timer_event :
    (allocated : Bool) (current later offset callback_func args : ℕ) → Timer → ℕ × Timer
add_timer_event allocated current later offset callback_func args t =
    let new_event : TimerEvent = record {
      target_clock = (current + offset) % 2 ^ 64;
      callback_func = callback_func;
      args = args;
    } in
    let t₁ = config_core_timer false t in
    let t₂ = record t₁ { events = insert_event new_event t.events } in
    let t₃ =
      if goes_first new_event t.events then set_timeout later new_event.target_clock t₂ else t₂ in
    if not t.initialized
    then (1, t)
    else if not allocated
    then (1, t)
    else (0, config_core_timer true t₃)

-- One turn of the loop of the handler. `run` is the call of an event's callback, which may add events
-- and changes what else there is (`World`).
unfoldable pub due_step :
    {World : Type 0}
    → (World × Timer → Option (World × Timer))
    → (TimerEvent → World × Timer → World × Timer)
    → (current_count : ℕ) → List TimerEvent
    → World × Timer
    → Option (World × Timer)
due_step again run current_count [] s = some s
due_step again run current_count (head ∷ next) (w, t) =
    let rest = again (run head (w, record t { events = next })) in
    if ltb current_count head.target_clock then some (w, t) else rest

-- `none` is a loop that has not ended after `n` turns.
unfoldable pub due_loop :
    {World : Type 0}
    → (TimerEvent → World × Timer → World × Timer)
    → ℕ
    → (current_count : ℕ) → World × Timer
    → Option (World × Timer)
due_loop run zero current_count s = none
due_loop run (suc n) current_count (w, t) =
    due_step (due_loop run n current_count) run current_count t.events (w, t)

unfoldable pub arm : (later : ℕ) → List TimerEvent → Timer → Timer
arm later [] t = t
arm later (head ∷ next) t = config_core_timer true (set_timeout later head.target_clock t)

-- `later` is the count that `set_timeout` reads.
unfoldable pub timer_interrupt_handler :
    {World : Type 0}
    → (TimerEvent → World × Timer → World × Timer)
    → ℕ
    → (current_count later : ℕ) → World × Timer
    → Option (World × Timer)
timer_interrupt_handler run n current_count later s = do
  (w, t) ← due_loop run n current_count s
  some (w, arm later t.events t)

-- `tick` is the address of `tick_callback`.
unfoldable pub drop_ticks : (tick : ℕ) → List TimerEvent → List TimerEvent
drop_ticks tick [] = []
drop_ticks tick (head ∷ next) =
    let rest = drop_ticks tick next in if head.callback_func == tick then rest else head ∷ next

-- The walk behind the head, which keeps `iter` and unlinks the ticks that follow it.
unfoldable pub unlink_ticks : (tick : ℕ) → List TimerEvent → List TimerEvent
unlink_ticks tick [] = []
unlink_ticks tick (iter ∷ next) =
    let rest = unlink_ticks tick next in if iter.callback_func == tick then rest else iter ∷ rest

unfoldable pub clear_rest : (tick : ℕ) → List TimerEvent → Timer → Timer
clear_rest tick [] t = record t { events = [] }
clear_rest tick (head ∷ next) t =
    config_core_timer true (record t { events = head ∷ unlink_ticks tick next })

-- The function compares with `tick_callback`, whatever callback it is given.
unfoldable pub clear_timer_event : (tick callback_func : ℕ) → Timer → Timer
clear_timer_event tick callback_func t =
    clear_rest tick (drop_ticks tick t.events) (config_core_timer false t)
