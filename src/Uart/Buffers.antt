-- ===== src/Uart/Buffers.antt =====
-- The two buffers as bounded queues of bytes: what a read takes and what the sending functions add.
use mathlib.Core.List.{append_assoc, append-nil}
use oscs25_labs.Base.{
  ℕ, suc, ◌+◌, ◌-◌, ◌%◌, ◌^◌, ◌≤◌, ◌<◌, true, false, List, [], ◌∷◌, ◌++◌, ◌≡◌, refl, ap, sym, ◌∙◌,
  length, length-append, arith, none, some, leb, ◌==◌, ℕ_cases, cons-injective, inl, inr,
}
use oscs25_labs.Uart.{
  Uart, async_buffer_size, async_read_data, async_send_data, send_string, send_string_by, send_line,
  send_line_by, enable_ier,
}
use oscs25_labs.Uart.Fifo.{items, contents, IsBuf, items-append}

pub record IsUart (u : Uart) : Type 0 where
  pub recv : IsBuf u.async_recv
  pub tran : IsBuf u.async_tran

-- `bytes` follow in the transmit buffer; the receive buffer is the same.
pub record Sent (bytes : List ℕ) (u u' : Uart) : Type 0 where
  pub wf : IsUart u'
  pub tran : contents u'.async_tran ≡ contents u.async_tran ++ bytes
  pub len : u'.async_tran.len ≡ u.async_tran.len + length bytes
  pub recv : u'.async_recv ≡ u.async_recv

-- The receive buffer holds `rest`; the transmit buffer is the same.
pub record Received (rest : List ℕ) (u u' : Uart) : Type 0 where
  pub wf : IsUart u'
  pub recv : contents u'.async_recv ≡ rest
  pub tran : u'.async_tran ≡ u.async_tran

pub Sent-nil : (u : Uart) → IsUart u → Sent [] u u
Sent-nil u wf = record {
  wf = wf;
  tran = sym (append-nil (contents u.async_tran));
  len = omega arith;
  recv = refl;
}

pub Sent-trans : (xs ys : List ℕ) {u v w : Uart} → Sent xs u v → Sent ys v w → Sent (xs ++ ys) u w
Sent-trans xs ys {u} {v} {w} s t = record {
  wf = t.wf;
  tran = rw (t.tran, s.tran) (append_assoc (contents u.async_tran) xs ys);
  len = omega (arith, s.len, t.len, length-append xs ys);
  recv = t.recv ∙ s.recv;
}

pub send_room :
    (c : ℕ) (u : Uart)
    → IsUart u
    → u.async_tran.len < async_buffer_size
    → (u' : Uart) × (async_send_data c u ≡ some u') × Sent (c ∷ []) u u'
unfolding async_send_data
send_room c u wf room =
    let buf = u.async_tran in
    let open_ : leb async_buffer_size buf.len ≡ false = ground arith in
    let idx : (buf.head + buf.len) % 2 ^ 32 % async_buffer_size
        ≡ (buf.head + buf.len) % async_buffer_size =
      omega (arith, wf.tran.head) in
    let more : (buf.len + 1) % 2 ^ 32 ≡ suc buf.len = omega arith in
    rw (open_, idx, more)
      (
        _,
        refl,
        record {
          wf = record { recv = wf.recv; tran = record { head = wf.tran.head; len = omega arith } };
          tran = items-append buf.len buf.head c buf.buffer wf.tran.head room;
          len = omega arith;
          recv = refl;
        },
      )

-- A full transmit buffer makes the sender wait.
pub send_full :
    (c : ℕ) (u : Uart) → u.async_tran.len ≡ async_buffer_size → async_send_data c u ≡ none
unfolding async_send_data
send_full c u full =
    let shut : leb async_buffer_size u.async_tran.len ≡ true = ground arith in rw shut refl

pub read_some :
    (c : ℕ) (rest : List ℕ) (u : Uart)
    → IsUart u
    → contents u.async_recv ≡ c ∷ rest
    → (u' : Uart) × (async_read_data u ≡ some (c, u')) × Received rest u u'
unfolding async_read_data
read_some c rest u wf e =
    let buf = u.async_recv in
    elim (ℕ_cases buf.len) [
      | inl none_left ↦ absurd (cc (sym (rw none_left at e)))
      | inr (n, len) ↦
          let some_left : (buf.len == 0) ≡ false = ground arith in
          let next : (buf.head + 1) % 2 ^ 32 % async_buffer_size
              ≡ (buf.head + 1) % async_buffer_size =
            omega (arith, wf.recv.head) in
          let e' : items (suc n) buf.head buf.buffer ≡ c ∷ rest = rw len at e in
          let fewer : buf.len - 1 ≡ n = omega arith in
          let taken : Uart = record u {
            async_recv = record buf { head = (buf.head + 1) % async_buffer_size; len = n };
            ier = enable_ier 1 u.ier;
          } in
          rw (some_left, next, fewer)
            (
              taken,
              ap (λ (b : ℕ). some (b, taken)) (cons-injective e').0,
              record {
                wf = record {
                  recv = record { head = omega arith; len = omega (arith, wf.recv.len) };
                  tran = wf.tran;
                };
                recv = (cons-injective e').1;
                tran = refl;
              },
            )
    ]

pub send_string-Sent :
    (str : List ℕ) (u : Uart)
    → IsUart u
    → u.async_tran.len + length str ≤ async_buffer_size
    → (u' : Uart) × (send_string str u ≡ some u') × Sent str u u'
unfolding send_string send_string_by
send_string-Sent [] u wf room = (u, refl, Sent-nil u wf)
send_string-Sent (c ∷ str) u wf room =
    let (u₁, e₁, s₁) = send_room c u wf (omega arith) in
    let (u₂, e₂, s₂) = send_string-Sent str u₁ s₁.wf (omega (arith, s₁.len)) in
    (u₂, rw e₁ e₂, Sent-trans (c ∷ []) str s₁ s₂)

-- A line that fits in the transmit buffer is appended to it with a carriage return and a line feed.
send_line-Sent :
    (line : List ℕ) (u : Uart)
    → IsUart u
    → u.async_tran.len + length line + 2 ≤ async_buffer_size
    → (u' : Uart) × (send_line line u ≡ some u') × Sent (line ++ 13 ∷ 10 ∷ []) u u'
unfolding send_line send_line_by send_string
send_line-Sent line u wf room =
    let (u₁, e₁, s₁) = send_string-Sent line u wf (omega arith) in
    let (u₂, e₂, s₂) = send_room 13 u₁ s₁.wf (omega (arith, s₁.len)) in
    let (u₃, e₃, s₃) = send_room 10 u₂ s₂.wf (omega (arith, s₁.len, s₂.len)) in
    (u₃, rw (e₁, e₂) e₃, Sent-trans line (13 ∷ 10 ∷ []) s₁ (Sent-trans (13 ∷ []) (10 ∷ []) s₂ s₃))
