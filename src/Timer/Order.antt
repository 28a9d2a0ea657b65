-- ===== src/Timer/Order.antt =====
-- The events in the order of their clocks: where a new one is put.
use oscs25_labs.Base.{
  ℕ, suc, ◌+◌, ◌%◌, ◌^◌, ◌≤◌, ◌<◌, ◌≢◌, true, false, List, [], ◌∷◌, ◌++◌, ltb, leb, if◌then◌else◌,
  ◌≡◌, refl, ap, Bool-cases, ◌⊎◌, inl, inr, arith,
}
use oscs25_labs.Timer.{
  TimerEvent, Timer, insert_event, goes_first, add_timer_event, config_core_timer, set_timeout,
}

-- No event of the list is due before `clock`.
abbrev pub AtLeast : ℕ → List TimerEvent → Type 0
AtLeast clock [] = Unit
AtLeast clock (e ∷ es) = (clock ≤ e.target_clock) × AtLeast clock es

abbrev pub InOrder : List TimerEvent → Type 0
InOrder [] = Unit
InOrder (e ∷ es) = AtLeast e.target_clock es × InOrder es

-- The events that are due at `clock`, and the others.
abbrev pub due : ℕ → List TimerEvent → List TimerEvent
due clock [] = []
due clock (e ∷ es) = if ltb clock e.target_clock then due clock es else e ∷ due clock es

abbrev pub not_due : ℕ → List TimerEvent → List TimerEvent
not_due clock [] = []
not_due clock (e ∷ es) = if ltb clock e.target_clock then e ∷ not_due clock es else not_due clock es

pub AtLeast-le : (c d : ℕ) (es : List TimerEvent) → c ≤ d → AtLeast d es → AtLeast c es
AtLeast-le c d [] le all = tt
AtLeast-le c d (e ∷ es) le all = (omega (arith, all.0), AtLeast-le c d es le all.1)

pub later-due :
    (c : ℕ) (es : List TimerEvent) → AtLeast (suc c) es → (due c es ≡ []) × (not_due c es ≡ es)
later-due c [] all = (refl, refl)
later-due c (e ∷ es) all =
    let after : ltb c e.target_clock ≡ true = ground (arith, all.0) in
    let rest = later-due c es all.1 in
    (rw after rest.0, rw after (ap (λ (l : List TimerEvent). e ∷ l) rest.1))

insert-AtLeast :
    (c : ℕ) (new : TimerEvent) (es : List TimerEvent)
    → c ≤ new.target_clock
    → AtLeast c es
    → AtLeast c (insert_event new es)
unfolding insert_event
insert-AtLeast c new [] le all = (le, tt)
insert-AtLeast c new (e ∷ es) le all = elim (Bool-cases (ltb new.target_clock e.target_clock)) [
  | inl before ↦ rw before (le, all)
  | inr after ↦ rw after (all.0, insert-AtLeast c new es le all.1)
]

pub insert-InOrder :
    (new : TimerEvent) (es : List TimerEvent) → InOrder es → InOrder (insert_event new es)
unfolding insert_event
insert-InOrder new [] ord = (tt, tt)
insert-InOrder new (e ∷ es) ord = elim (Bool-cases (ltb new.target_clock e.target_clock)) [
  | inl before ↦
      let lt : new.target_clock ≤ e.target_clock = ground arith in
      rw before ((lt, AtLeast-le new.target_clock e.target_clock es lt ord.0), ord)
  | inr after ↦
      let le : e.target_clock ≤ new.target_clock = ground arith in
      rw after (insert-AtLeast e.target_clock new es le ord.0, insert-InOrder new es ord.1)
]

-- A new event stands behind all that are due when it is, and before all others.
insert_place :
    (new : TimerEvent) (es : List TimerEvent)
    → InOrder es
    → insert_event new es ≡ due new.target_clock es ++ new ∷ not_due new.target_clock es
unfolding insert_event
insert_place new [] ord = refl
insert_place new (e ∷ es) ord = elim (Bool-cases (ltb new.target_clock e.target_clock)) [
  | inl before ↦
      let lt : suc new.target_clock ≤ e.target_clock = ground arith in
      let rest =
        later-due new.target_clock es
          (AtLeast-le (suc new.target_clock) e.target_clock es lt ord.0) in
      rw (before, rest.0, rest.1) refl
  | inr after ↦ rw after (ap (λ (l : List TimerEvent). e ∷ l) (insert_place new es ord.1))
]

-- What the compare register holds when it is set for `target` at the count `later`: an interrupt
-- comes after ten counts at the earliest.
abbrev pub CompareSet : (later target cval : ℕ) → Type 0
CompareSet later target cval =
    let soon = (later + 10) % 2 ^ 64 in
    ((soon < target) × (cval ≡ target)) ⊎ ((target ≤ soon) × (cval ≡ soon))

pub set_timeout-CompareSet :
    (later target : ℕ) (t : Timer) → CompareSet later target (set_timeout later target t).cval
unfolding set_timeout
set_timeout-CompareSet later target t = elim (Bool-cases (leb target ((later + 10) % 2 ^ 64))) [
  | inl near ↦ rw near (inr (ground arith, refl))
  | inr far ↦ rw far (inl (ground arith, refl))
]

first_due :
    (new : TimerEvent) (es : List TimerEvent)
    → InOrder es
    → goes_first new es ≡ true
    → due new.target_clock es ≡ []
unfolding goes_first
first_due new [] ord first = refl
first_due new (e ∷ es) ord first =
    let after : suc new.target_clock ≤ e.target_clock = ground arith in
    (later-due new.target_clock (e ∷ es)
      (after, AtLeast-le (suc new.target_clock) e.target_clock es after ord.0)).0

behind_due :
    (new : TimerEvent) (es : List TimerEvent)
    → goes_first new es ≡ false
    → due new.target_clock es ≢ []
unfolding goes_first
behind_due new [] behind e = cc behind
behind_due new (x ∷ es) behind e =
    let listed : x ∷ due new.target_clock es ≡ [] = rw behind at e in cc listed

-- The outcome of an addition: `new` follows the events that are due when it is, in the order of
-- their arrival; the list stays in order, and the timer runs. The compare register is set if there
-- are none, so that `new` is at the head, and is as it was otherwise.
pub record Added (t : Timer) (new : TimerEvent) (later : ℕ) (r : ℕ × Timer) : Type 0 where
  pub success : r.0 ≡ 0
  pub place : r.1.events ≡ due new.target_clock t.events ++ new ∷ not_due new.target_clock t.events
  pub order : InOrder r.1.events
  pub enabled : r.1.enabled ≡ true
  pub unmasked : r.1.timer_mask ≡ false
  pub clock :
      ((due new.target_clock t.events ≢ []) × (r.1.cval ≡ t.cval))
      ⊎ ((due new.target_clock t.events ≡ []) × CompareSet later new.target_clock r.1.cval)

-- An initialised timer whose events are in order accepts an event for which there is memory: it is
-- put behind those that are due no later and before the others. If there are none that are due no
-- later, the compare register is set for it, to ten counts from now at the earliest; else the
-- register stays.
pub add_timer_event-Added :
    (current later offset callback_func args : ℕ) (t : Timer)
    → t.initialized ≡ true
    → InOrder t.events
    → Added t
        (record {
          target_clock = (current + offset) % 2 ^ 64;
          callback_func = callback_func;
          args = args;
        })
        later
        (add_timer_event true current later offset callback_func args t)
unfolding add_timer_event config_core_timer set_timeout
add_timer_event-Added current later offset callback_func args t init ord =
    let new : TimerEvent = record {
      target_clock = (current + offset) % 2 ^ 64;
      callback_func = callback_func;
      args = args;
    } in
    elim (Bool-cases (goes_first new t.events)) [
      | inl first ↦
          rw (init, first)
            record {
              success = refl;
              place = insert_place new t.events ord;
              order = insert-InOrder new t.events ord;
              enabled = refl;
              unmasked = refl;
              clock = inr (
                first_due new t.events ord first,
                set_timeout-CompareSet later new.target_clock t,
              );
            }
      | inr behind ↦
          rw (init, behind)
            record {
              success = refl;
              place = insert_place new t.events ord;
              order = insert-InOrder new t.events ord;
              enabled = refl;
              unmasked = refl;
              clock = inl (behind_due new t.events behind, refl);
            }
    ]
