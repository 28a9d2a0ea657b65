-- ===== src/Timer/Tests.antt =====
-- The timer on small inputs.
use oscs25_labs.Base.{ℕ, suc, true, false, [], ◌∷◌, ◌≡◌, refl, arith, some}
use oscs25_labs.Timer.{TimerEvent, Timer, add_timer_event, timer_interrupt_handler}
use oscs25_labs.Timer.Order.{InOrder, Added, add_timer_event-Added, due}
use oscs25_labs.Timer.Due.{Armed, Fired, AddsLater, timer_interrupt_handler-Fired}

abbrev event : ℕ → TimerEvent
event clock = record { target_clock = clock; callback_func = 0x1000; args = 0 }

abbrev timer : Timer
timer = record {
  events = event 10 ∷ event 20 ∷ event 20 ∷ event 30 ∷ [];
  initialized = true;
  cval = 10;
  enabled = true;
  timer_mask = false;
}

timer-InOrder : InOrder timer.events
timer-InOrder = (
  (omega arith, (omega arith, (omega arith, tt))),
  ((omega arith, (omega arith, tt)), ((omega arith, tt), (tt, tt))),
)

add_timer_event-Added_example :
    Added timer
      (record { target_clock = 20; callback_func = 0x2000; args = 7 })
      6
      (add_timer_event true 5 6 15 0x2000 7 timer)
add_timer_event-Added_example = add_timer_event-Added 5 6 15 0x2000 7 timer refl timer-InOrder

-- A callback that counts its runs.
abbrev count : TimerEvent → ℕ × Timer → ℕ × Timer
count e (n, t) = (suc n, t)

count-AddsLater : AddsLater count 20
count-AddsLater e w t ord = (ord, refl)

timer_interrupt_handler-Fired_example :
    (w' : ℕ) × (t' : Timer) × (t'' : Timer) × (timer_interrupt_handler count 4 20 21 (0, timer)
      ≡ some (w', t''))
    × Fired count 20 (due 20 timer.events) (0, timer) (w', t')
    × InOrder t'.events
    × (due 20 t'.events ≡ [])
    × Armed 21 t'.events t' t''
timer_interrupt_handler-Fired_example =
    timer_interrupt_handler-Fired count 20 count-AddsLater 4 21 0 timer timer-InOrder (omega arith)
