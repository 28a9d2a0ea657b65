-- ===== src/Uart/Traffic.antt =====
-- The mini UART in use: interrupts, readers and senders, in any order. A call of `async_read_data` or
-- `async_send_data` is one step: an interrupt between the read and the write of `len` inside a call
-- is left out, and it would lose the handler's change of `len`.
use oscs25_labs.Base.{
  ℕ, ◌+◌, ◌%◌, List, [], ◌∷◌, ◌++◌, ◌≡◌, ◌∙◌, refl, sym, ap, Option, none, some, arith, ℕ_cases,
  inl, inr,
}
use mathlib.Core.Path.{subst}
use mathlib.Core.List.{append_assoc, append-nil, map, map-append}
use native.Mathlib.Decide.{dec_lt}
use oscs25_labs.Uart.{
  Uart, AsyncBuf, async_buffer_size, async_read_data, async_send_data, uart_except_handler,
}
use oscs25_labs.Uart.Buffers.{IsUart, send_room, send_full, read_some}
use oscs25_labs.Uart.Fifo.{contents, items}
use oscs25_labs.Uart.Interrupt.{low_byte, uart_except_handler-Handled}
use oscs25_labs.Uart.Setup.{init_uart, init_uart-IsUart}

-- The bytes that wait at the device, those that readers got, those given to be sent, and those sent.
pub record Line : Type 0 where
  pub uart : Uart
  pub waiting : List ℕ
  pub was_read : List ℕ
  pub given : List ℕ
  pub sent : List ℕ

-- At an interrupt bytes have arrived; a reader or a sender that would wait does nothing.
pub data Event : Type 0 where
  interrupt : (iir room : ℕ) → (arrived : List ℕ) → Event
  read : Event
  send : (c : ℕ) → Event

abbrev pub after_interrupt : Line → List ℕ × List ℕ × Uart → Line
after_interrupt l (left, out, u) = record l { uart = u; waiting = left; sent = l.sent ++ out }

abbrev pub after_read : Line → Option (ℕ × Uart) → Line
after_read l none = l
after_read l (some (c, u)) = record l { uart = u; was_read = l.was_read ++ c ∷ [] }

abbrev pub after_send : ℕ → Line → Option Uart → Line
after_send c l none = l
after_send c l (some u) = record l { uart = u; given = l.given ++ c ∷ [] }

abbrev pub step : Event → Line → Line
step (interrupt iir room arrived) l =
    after_interrupt l (uart_except_handler iir (l.waiting ++ arrived) room l.uart)
step read l = after_read l (async_read_data l.uart)
step (send c) l = after_send c l (async_send_data c l.uart)

abbrev pub traffic : List Event → Line → Line
traffic [] l = l
traffic (e ∷ es) l = traffic es (step e l)

-- All bytes that arrive.
abbrev pub arrivals : List Event → List ℕ
arrivals [] = []
arrivals (interrupt iir room arrived ∷ es) = arrived ++ arrivals es
arrivals (read ∷ es) = arrivals es
arrivals (send c ∷ es) = arrivals es

-- The bytes `came` have arrived: they were read, are in the buffer or wait at the device, in their
-- order, and so are those to be sent.
pub record InOrder (came : List ℕ) (l : Line) : Type 0 where
  pub wf : IsUart l.uart
  pub received :
      l.was_read ++ (contents l.uart.async_recv ++ map low_byte l.waiting) ≡ map low_byte came
  pub transmitted : l.sent ++ contents l.uart.async_tran ≡ l.given

regroup : (a b c d : List ℕ) → a ++ (b ++ (c ++ d)) ≡ (a ++ (b ++ c)) ++ d
regroup a b c d = sym (append_assoc a (b ++ c) d ∙ ap (λ (l : List ℕ). a ++ l) (append_assoc b c d))

interrupt-InOrder :
    (iir room : ℕ) (came arrived : List ℕ) (l : Line)
    → InOrder came l
    → InOrder (came ++ arrived) (step (interrupt iir room arrived) l)
interrupt-InOrder iir room came arrived l inv =
    let h = uart_except_handler-Handled iir (l.waiting ++ arrived) room l.uart inv.wf in
    let r = uart_except_handler iir (l.waiting ++ arrived) room l.uart in
    let buffered = contents l.uart.async_recv in
    record {
      wf = h.wf;
      received =
          ap (λ (xs : List ℕ). l.was_read ++ xs) h.received
          ∙ ap (λ (xs : List ℕ). l.was_read ++ (buffered ++ xs))
              (map-append low_byte l.waiting arrived)
          ∙ regroup l.was_read buffered (map low_byte l.waiting) (map low_byte arrived)
          ∙ ap (λ (xs : List ℕ). xs ++ map low_byte arrived) inv.received
          ∙ sym (map-append low_byte came arrived);
      transmitted =
          append_assoc l.sent r.1 (contents r.2.async_tran)
          ∙ ap (λ (xs : List ℕ). l.sent ++ xs) h.sent
          ∙ inv.transmitted;
    }

read-InOrder : (came : List ℕ) (l : Line) → InOrder came l → InOrder came (step read l)
unfolding async_read_data
read-InOrder came l inv = elim (ℕ_cases l.uart.async_recv.len) [
  | inl empty ↦ let waits : async_read_data l.uart ≡ none = rw empty refl in rw waits inv
  | inr (n, len) ↦
      let buf = l.uart.async_recv in
      let c = buf.buffer buf.head in
      let rest = items n ((buf.head + 1) % async_buffer_size) buf.buffer in
      let e : contents buf ≡ c ∷ rest = rw len refl in
      let (u', found, got) = read_some c rest l.uart inv.wf e in
      let left = map low_byte l.waiting in
      rw found (record {
        wf = got.wf;
        received =
            append_assoc l.was_read (c ∷ []) (contents u'.async_recv ++ left)
            ∙ ap (λ (xs : List ℕ). l.was_read ++ (c ∷ (xs ++ left))) got.recv
            ∙ ap (λ (xs : List ℕ). l.was_read ++ (xs ++ left)) (sym e)
            ∙ inv.received;
        transmitted = ap (λ (b : AsyncBuf). l.sent ++ contents b) got.tran ∙ inv.transmitted;
      })
]

send-InOrder : (c : ℕ) (came : List ℕ) (l : Line) → InOrder came l → InOrder came (step (send c) l)
send-InOrder c came l inv = elim (dec_lt l.uart.async_tran.len async_buffer_size) [
  | yes room ↦
      let (u', e, s) = send_room c l.uart inv.wf room in
      rw e (record {
        wf = s.wf;
        received =
            ap (λ (b : AsyncBuf). l.was_read ++ (contents b ++ map low_byte l.waiting)) s.recv
            ∙ inv.received;
        transmitted =
            ap (λ (xs : List ℕ). l.sent ++ xs) s.tran
            ∙ sym (append_assoc l.sent (contents l.uart.async_tran) (c ∷ []))
            ∙ ap (λ (xs : List ℕ). xs ++ c ∷ []) inv.transmitted;
      })
  | no full ↦ let waits = send_full c l.uart (omega (arith, full, inv.wf.tran.len)) in rw waits inv
]

traffic-InOrder :
    (es : List Event) (came : List ℕ) (l : Line)
    → InOrder came l
    → InOrder (came ++ arrivals es) (traffic es l)
traffic-InOrder [] came l inv = subst (λ (xs : List ℕ). InOrder xs l) (sym (append-nil came)) inv
traffic-InOrder (interrupt iir room arrived ∷ es) came l inv =
    subst (λ (xs : List ℕ). InOrder xs (traffic es (step (interrupt iir room arrived) l)))
      (append_assoc came arrived (arrivals es))
      (traffic-InOrder es (came ++ arrived) (step (interrupt iir room arrived) l)
        (interrupt-InOrder iir room came arrived l inv))
traffic-InOrder (read ∷ es) came l inv =
    traffic-InOrder es came (step read l) (read-InOrder came l inv)
traffic-InOrder (send c ∷ es) came l inv =
    traffic-InOrder es came (step (send c) l) (send-InOrder c came l inv)

-- Nothing has come or gone.
abbrev pub idle_line : Uart → Line
idle_line u = record { uart = u; waiting = []; was_read = []; given = []; sent = [] }

-- Behind init_uart, whatever interrupts, reads and sends there are, in any order, each of them one
-- step that no other interrupts: the bytes that have arrived were read, are in the receive buffer or
-- wait at the device, in their order, and those given to async_send_data were sent or are in the
-- transmit buffer, in theirs.
pub init_uart-InOrder :
    (fsel_config : ℕ) (u : Uart) (es : List Event)
    → InOrder (arrivals es) (traffic es (idle_line (init_uart fsel_config u).1))
init_uart-InOrder fsel_config u es =
    let (wf, no_recv, no_tran, _, _) = init_uart-IsUart fsel_config u in
    traffic-InOrder es [] (idle_line (init_uart fsel_config u).1)
      (record { wf = wf; received = rw no_recv refl; transmitted = no_tran })
