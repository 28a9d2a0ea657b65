-- ===== src/Except/Sequence.antt =====
-- Interrupts one after another, from `init_exception` on.
use oscs25_labs.Base.{
  ℕ, ◌<◌, List, [], ◌∷◌, ◌≡◌, ◌≢◌, refl, sym, ap, ◌∙◌, Option, none, some, ◌>>=◌, Option-cases, inl,
  inr,
}
use oscs25_labs.Except.{Except, task_pool_len}
use oscs25_labs.Except.Exec.{Run, irq_handler}
use oscs25_labs.Except.Handler.{answer}
use oscs25_labs.Except.Preempt.{Handled, irq_handler-Handled}
use oscs25_labs.Except.Quiet.{Quiet}
use oscs25_labs.Except.Setup.{down_to, Idle, Idle-TaskPool, init_exception, init_exception-Idle}

-- The sources of the interrupts with their trap frames.
abbrev pub Interrupts : Type 0
Interrupts = List (ℕ × ℕ)

module _ {ℓ} {W : Type ℓ} (timer uart : ℕ) where
  abbrev pub interrupts : Run W → ℕ → Interrupts → W × Except → Option (W × Except)
  interrupts run n [] ws = some ws
  interrupts run n ((source, frame) ∷ is) ws =
      irq_handler run n timer uart source frame ws >>= (λ ws'. interrupts run n is ws')

  abbrev pub respond : (ℕ → ℕ → W → W) → Option (ℕ × ℕ) → (frame : ℕ) → W → W
  respond act none frame w = w
  respond act (some (handler, priority)) frame w = act handler frame w

  -- The handler of each source, in the order of the interrupts.
  abbrev pub respond_all : (ℕ → ℕ → W → W) → Interrupts → W → W
  respond_all act [] w = w
  respond_all act ((source, frame) ∷ is) w =
      respond_all act is (respond act (answer timer uart source) frame w)

-- All sources are those of the timer or of the UART.
abbrev pub Known : (timer uart : ℕ) → Interrupts → Type 0
Known timer uart [] = Unit
Known timer uart ((source, frame) ∷ is) = (answer timer uart source ≢ none) × Known timer uart is

Handled-Idle :
    (t q : ℕ) (ts : List ℕ) (s s' : Except) → Idle t q ts s → Handled t q ts s' → Idle t q ts s'
Handled-Idle t q ts s s' idle h = record {
  pool = record { chain = h.pool; distinct = idle.pool.distinct; clear = h.clear };
  queue = h.queue_pool;
  base = h.base;
}

module _ {ℓ} {W : Type ℓ} (run : Run W) (act : ℕ → ℕ → W → W) (quiet : Quiet run act)
    (timer uart n : ℕ) (fuel : 1 < n) where
  irq_handler-Idle :
      (t q : ℕ) (ts : List ℕ) (source frame : ℕ) (w : W) (s : Except)
      → answer timer uart source ≢ none
      → Idle t q ts s
      → (s' : Except) × (irq_handler run n timer uart source frame (w, s)
          ≡ some (respond timer uart act (answer timer uart source) frame w, s'))
        × Idle t q ts s'
  irq_handler-Idle t q ts source frame w s known idle =
      elim (Option-cases (answer timer uart source)) [
        | inl unknown ↦ absurd (known unknown)
        | inr ((h, p), e) ↦
            let (s', ran, handled) =
              irq_handler-Handled run act quiet timer uart source t q h p frame n ts w s fuel
                (Idle-TaskPool t q ts s idle) e idle.queue idle.base in
            (
              s',
              ran
                  ∙ ap (λ (o : Option (ℕ × ℕ)). some (respond timer uart act o frame w, s'))
                      (sym e),
              Handled-Idle t q ts s s' idle handled,
            )
      ]

  interrupts-Idle :
      (is : Interrupts) (t q : ℕ) (ts : List ℕ) (w : W) (s : Except)
      → Known timer uart is
      → Idle t q ts s
      → (s' : Except) × (interrupts timer uart run n is (w, s)
          ≡ some (respond_all timer uart act is w, s'))
        × Idle t q ts s'
  interrupts-Idle [] t q ts w s known idle = (s, refl, idle)
  interrupts-Idle ((source, frame) ∷ is) t q ts w s known idle =
      let (s', ran, idle') = irq_handler-Idle t q ts source frame w s known.0 idle in
      let (s'', rest, idle'') =
        interrupts-Idle is t q ts (respond timer uart act (answer timer uart source) frame w) s'
          known.1 idle' in
      (s'', rw ran rest, idle'')

  -- From init_exception, with the lists of the pools at NULL, any interrupts of known sources, one
  -- after another, with handlers that are not interrupted, are handled: each handler has run once,
  -- with the trap frame of its interrupt and in their order, and the processor is idle again, with
  -- all tasks and a queue in the pools.
  pub init_exception-interrupts :
      (is : Interrupts) (w : W) (s : Except)
      → Known timer uart is
      → s.tasks.task_free_list ≡ none
      → (s' : Except) × (ts : List ℕ) × (interrupts timer uart run n is (w, init_exception s)
          ≡ some (respond_all timer uart act is w, s'))
        × (down_to task_pool_len [] ≡ 0 ∷ ts)
        × Idle 0 0 ts s'
  init_exception-interrupts is w s known empty =
      let (ts, all, idle) = init_exception-Idle s empty in
      let (s', ran, idle') = interrupts-Idle is 0 0 ts w (init_exception s) known idle in
      (s', ts, ran, all, idle')
