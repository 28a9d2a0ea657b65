-- ===== src/Uart/Interrupt.antt =====
-- The interrupt handler: no byte is lost, repeated or moved past another between the device and the
-- buffers.
use mathlib.Core.List.{append_assoc, map}
use oscs25_labs.Base.{
  ℕ, zero, suc, ◌+◌, ◌-◌, ◌/◌, ◌%◌, ◌^◌, ◌<◌, true, false, List, [], ◌∷◌, ◌++◌, ◌≡◌, ◌⊎◌, inl, inr,
  refl, ap, sym, ◌∙◌, length, arith, leb, ◌==◌, update, ℕ_cases, Bool-cases,
}
use oscs25_labs.Uart.{
  AsyncBuf, Uart, async_buffer_size, receive_loop, transmit_loop, uart_except_handler,
  enable_aux_interrupt, disable_ier,
}
use oscs25_labs.Uart.Fifo.{items, contents, IsBuf, items-append}
use oscs25_labs.Uart.Buffers.{IsUart}

-- `(byte)` keeps eight bits.
abbrev pub low_byte : ℕ → ℕ
low_byte b = b % 2 ^ 8

-- What the receive loop leaves: the bytes in order, and at the device only if the buffer is full.
pub record ReceivedAll (ready : List ℕ) (buf : AsyncBuf) (ier : ℕ) (r : List ℕ × AsyncBuf × ℕ)
    : Type 0 where
  pub wf : IsBuf r.1
  pub order : contents r.1 ++ map low_byte r.0 ≡ contents buf ++ map low_byte ready
  pub stop :
      ((r.0 ≡ []) × (r.2 ≡ ier)) ⊎ ((r.1.len ≡ async_buffer_size) × (r.2 ≡ disable_ier 1 ier))

pub receive_loop-ReceivedAll :
    (ready : List ℕ) (buf : AsyncBuf) (ier : ℕ)
    → IsBuf buf
    → ReceivedAll ready buf ier (receive_loop ready buf ier)
unfolding receive_loop
receive_loop-ReceivedAll [] buf ier wf = record { wf = wf; order = refl; stop = inl (refl, refl) }
receive_loop-ReceivedAll (b ∷ ready) buf ier wf =
    elim (Bool-cases (leb async_buffer_size buf.len)) [
      | inl full ↦
          rw full record { wf = wf; order = refl; stop = inr (ground (arith, wf.len), refl) }
      | inr room ↦
          let idx : (buf.head + buf.len) % 2 ^ 32 % async_buffer_size
              ≡ (buf.head + buf.len) % async_buffer_size =
            omega (arith, wf.head, wf.len) in
          let lt : buf.len < async_buffer_size = ground arith in
          let more : (buf.len + 1) % 2 ^ 32 ≡ suc buf.len = omega arith in
          let buf' : AsyncBuf = record buf {
            buffer = update buf.buffer ((buf.head + buf.len) % async_buffer_size) (low_byte b);
            len = suc buf.len;
          } in
          let rest =
            receive_loop-ReceivedAll ready buf' ier
              (record { head = wf.head; len = omega arith }) in
          let one = items-append buf.len buf.head (low_byte b) buf.buffer wf.head lt in
          rw (room, idx, more)
            record {
              wf = rest.wf;
              order =
                  rest.order
                  ∙ ap (λ (l : List ℕ). l ++ map low_byte ready) one
                  ∙ append_assoc (contents buf) (low_byte b ∷ []) (map low_byte ready);
              stop = rest.stop;
            }
    ]

-- What the transmit loop leaves: the bytes sent are the oldest, as many as the device takes, or all.
pub record SentOldest (room : ℕ) (buf : AsyncBuf) (ier : ℕ) (r : List ℕ × AsyncBuf × ℕ)
    : Type 0 where
  pub wf : IsBuf r.1
  pub order : r.0 ++ contents r.1 ≡ contents buf
  pub stop : ((length r.0 ≡ room) × (r.2 ≡ ier)) ⊎ ((r.1.len ≡ 0) × (r.2 ≡ disable_ier 2 ier))

pub transmit_loop-SentOldest :
    (room : ℕ) (buf : AsyncBuf) (ier : ℕ)
    → IsBuf buf
    → SentOldest room buf ier (transmit_loop room buf ier)
unfolding transmit_loop
transmit_loop-SentOldest zero buf ier wf = record { wf = wf; order = refl; stop = inl (refl, refl) }
transmit_loop-SentOldest (suc room) buf ier wf = elim (ℕ_cases buf.len) [
  | inl empty ↦
      let stop : (buf.len == 0) ≡ true = ground arith in
      rw stop record { wf = wf; order = refl; stop = inr (empty, refl) }
  | inr (n, len) ↦
      let some_left : (buf.len == 0) ≡ false = ground arith in
      let next : (buf.head + 1) % 2 ^ 32 % async_buffer_size ≡ (buf.head + 1) % async_buffer_size =
        omega (arith, wf.head) in
      let fewer : buf.len - 1 ≡ n = omega arith in
      let buf' : AsyncBuf = record buf { head = (buf.head + 1) % async_buffer_size; len = n } in
      let rest =
        transmit_loop-SentOldest room buf' ier
          (record { head = omega arith; len = omega (arith, wf.len) }) in
      let all : contents buf ≡ buf.buffer buf.head ∷ contents buf' =
        ap (λ (k : ℕ). items k buf.head buf.buffer) len in
      rw (some_left, next, fewer)
        record {
          wf = rest.wf;
          order = ap (λ (l : List ℕ). buf.buffer buf.head ∷ l) rest.order ∙ sym all;
          stop = elim rest.stop [
            | inl (done, same) ↦ inl (omega arith, same)
            | inr (done, off) ↦ inr (done, off)
          ];
        }
]

-- The bytes in the buffers and at the device, before and after the handler.
pub record Handled (ready : List ℕ) (u : Uart) (r : List ℕ × List ℕ × Uart) : Type 0 where
  pub wf : IsUart r.2
  pub received :
      contents r.2.async_recv ++ map low_byte r.0 ≡ contents u.async_recv ++ map low_byte ready
  pub sent : r.1 ++ contents r.2.async_tran ≡ contents u.async_tran
  pub enabled : r.2.irq_enabled ≡ true
  pub unmasked : r.2.uart_mask ≡ false

-- Whatever interrupt is pending, the bytes received go behind those in the receive buffer in their
-- order, those that do not fit stay at the device, the bytes sent are the oldest of the transmit
-- buffer, and the interrupt is enabled again.
pub uart_except_handler-Handled :
    (iir : ℕ) (ready : List ℕ) (room : ℕ) (u : Uart)
    → IsUart u
    → Handled ready u (uart_except_handler iir ready room u)
unfolding uart_except_handler enable_aux_interrupt
uart_except_handler-Handled iir ready room u wf = elim (Bool-cases (iir / 2 % 4 == 2)) [
  | inl rx ↦
      let all = receive_loop-ReceivedAll ready u.async_recv u.ier wf.recv in
      rw rx record {
        wf = record { recv = all.wf; tran = wf.tran };
        received = all.order;
        sent = refl;
        enabled = refl;
        unmasked = refl;
      }
  | inr not_rx ↦ elim (Bool-cases (iir / 2 % 4 == 1)) [
    | inl tx ↦
        let all = transmit_loop-SentOldest room u.async_tran u.ier wf.tran in
        rw (not_rx, tx)
          record {
            wf = record { recv = wf.recv; tran = all.wf };
            received = refl;
            sent = all.order;
            enabled = refl;
            unmasked = refl;
          }
    | inr other ↦
        rw (not_rx, other)
          record {
            wf = record { recv = wf.recv; tran = wf.tran };
            received = refl;
            sent = refl;
            enabled = refl;
            unmasked = refl;
          }
  ]
]
