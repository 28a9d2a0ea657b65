-- ===== src/Timer/Due.antt =====
-- The handler of the timer interrupt: the events that it runs and those that it leaves.
use oscs25_labs.Base.{
  ℕ, zero, suc, ◌≤◌, ◌<◌, true, false, List, [], ◌∷◌, ltb, length, ◌≡◌, refl, ap, sym, ◌∙◌,
  Bool-cases, inl, inr, arith, Option, some, subst,
}
use oscs25_labs.Timer.{
  config_core_timer, set_timeout, TimerEvent, Timer, due_step, due_loop, arm,
  timer_interrupt_handler,
}
use oscs25_labs.Timer.Order.{
  CompareSet, set_timeout-CompareSet, AtLeast-le, InOrder, due, later-due,
}

-- The timer `t'` behind the handler, from `t`, whose events are left: it runs, and compares with the
-- first of them; without one it is as it was.
abbrev pub Armed : (later : ℕ) → List TimerEvent → Timer → Timer → Type 0
Armed later [] t t' = t' ≡ t
Armed later (e ∷ es) t t' =
    (t'.events ≡ e ∷ es)
    × (t'.enabled ≡ true)
    × (t'.timer_mask ≡ false)
    × CompareSet later e.target_clock t'.cval

arm-Armed :
    (later : ℕ) (es : List TimerEvent) (t : Timer)
    → t.events ≡ es
    → Armed later es t (arm later es t)
unfolding arm config_core_timer set_timeout
arm-Armed later [] t e = refl
arm-Armed later (head ∷ next) t e =
    (e, refl, refl, set_timeout-CompareSet later head.target_clock t)

module _ {World : Type 0} (run : TimerEvent → World × Timer → World × Timer) (clock : ℕ) where
  -- The events of a list are run one after the other, each when it is the head of the queue.
  pub data Fired : List TimerEvent → World × Timer → World × Timer → Type 0 where
    done : (s : World × Timer) → Fired [] s s
    fire :
        (e : TimerEvent) (es next : List TimerEvent) (w : World) (t : Timer) (s : World × Timer)
        → t.events ≡ e ∷ next
        → Fired es (run e (w, record t { events = next })) s
        → Fired (e ∷ es) (w, t) s

  -- A callback keeps the events in order, and those that it adds are due after `clock`.
  abbrev pub AddsLater : Type 0
  AddsLater =
      (e : TimerEvent) (w : World) (t : Timer)
      → InOrder t.events
      → InOrder (run e (w, t)).1.events × (due clock (run e (w, t)).1.events ≡ due clock t.events)

  Fired-eq :
      {xs ys : List TimerEvent} {s s' : World × Timer} → xs ≡ ys → Fired ys s s' → Fired xs s s'
  Fired-eq {xs} {ys} {s} {s'} e f = subst (λ (l : List TimerEvent). Fired l s s') (sym e) f

  -- The loop ends with every event that was due run once, in the order of the clocks.
  pub record RanDue (s : World × Timer) (r : Option (World × Timer)) : Type 0 where
    pub after : World × Timer
    pub ended : r ≡ some after
    pub fired : Fired (due clock s.1.events) s after
    pub order : InOrder after.1.events
    pub none_due : due clock after.1.events ≡ []

  -- The loop with `n` turns does this where `n` exceeds the count of the events that are due.
  abbrev Turns : ℕ → Type 0
  Turns n =
      (w : World) (t : Timer)
      → InOrder t.events
      → length (due clock t.events) < n
      → RanDue (w, t) (due_loop run n clock (w, t))

  module _ (adds : AddsLater) where
    due_turn :
        (n : ℕ) (turns : Turns n) (es : List TimerEvent) (w : World) (t : Timer)
        → t.events ≡ es
        → InOrder es
        → length (due clock es) ≤ n
        → RanDue (w, t) (due_step (due_loop run n clock) run clock es (w, t))
    unfolding due_step due_loop
    due_turn n turns [] w t e ord fuel = record {
      after = (w, t);
      ended = refl;
      fired = Fired-eq (ap (due clock) e) (done (w, t));
      order = rw e tt;
      none_due = rw e refl;
    }
    due_turn n turns (head ∷ next) w t e ord fuel =
        elim (Bool-cases (ltb clock head.target_clock)) [
          | inl late ↦
              let le : suc clock ≤ head.target_clock = ground arith in
              let rest =
                later-due clock (head ∷ next)
                  (le, AtLeast-le (suc clock) head.target_clock next le ord.0) in
              rw late record {
                after = (w, t);
                ended = refl;
                fired = Fired-eq (ap (due clock) e ∙ rest.0) (done (w, t));
                order = rw e ord;
                none_due = rw e rest.0;
              }
          | inr now ↦
              let fuel' : suc (length (due clock next)) ≤ n = rw now at fuel in
              let first : due clock (head ∷ next) ≡ head ∷ due clock next = rw now refl in
              let s' = run head (w, record t { events = next }) in
              let kept = adds head w (record t { events = next }) ord.1 in
              let r = turns s'.0 s'.1 kept.0 (rw kept.1 fuel') in
              rw now record {
                after = r.after;
                ended = r.ended;
                fired =
                    Fired-eq (ap (due clock) e ∙ first) (
                      fire head (due clock next) next w t r.after e
                        (Fired-eq (sym kept.1) r.fired));
                order = r.order;
                none_due = r.none_due;
              }
        ]

    due-Turns : (n : ℕ) → Turns n
    unfolding due_step due_loop
    due-Turns zero w t ord fuel = absurd (omega arith)
    due-Turns (suc n) w t ord fuel = due_turn n (due-Turns n) t.events w t refl ord (omega arith)

    -- From events in order, with callbacks that return and add only later events, the handler ends:
    -- it has run each event that was due once, in the order of the clocks, no event that is left is
    -- due, and the events are in order. If one is left, the timer runs, unmasked, and compares with
    -- the clock of the first, or with the count ten from now if that is later; if none is, the timer
    -- stays as the callbacks left it.
    pub timer_interrupt_handler-Fired :
        (n later : ℕ) (w : World) (t : Timer)
        → InOrder t.events
        → length (due clock t.events) < n
        → (w' : World) × (t' : Timer) × (t'' : Timer) × (timer_interrupt_handler run n clock later
              (w, t)
            ≡ some (w', t''))
          × Fired (due clock t.events) (w, t) (w', t')
          × InOrder t'.events
          × (due clock t'.events ≡ [])
          × Armed later t'.events t' t''
    unfolding timer_interrupt_handler
    timer_interrupt_handler-Fired n later w t ord fuel =
        let r = due-Turns n w t ord fuel in
        (
          r.after.0,
          r.after.1,
          arm later r.after.1.events r.after.1,
          rw r.ended refl,
          r.fired,
          r.order,
          r.none_due,
          arm-Armed later r.after.1.events r.after.1 refl,
        )
