-- ===== src/Uart/Lines.antt =====
-- `echo_read_line` against the line editing that it offers.
use mathlib.Core.List.{append_assoc, append-nil}
use oscs25_labs.Base.{
  ℕ, zero, suc, ◌+◌, ◌*◌, ◌≤◌, ◌<◌, true, false, List, [], ◌∷◌, ◌++◌, ◌≡◌, inl, inr, refl, ap, ap₂,
  sym, ◌∙◌, length, length-append, arith, ◌==◌, if◌then◌else◌, update, Bool-cases, mem, Option,
  some, update-ne, update_self, ==_iff,
}
use oscs25_labs.Uart.{
  AsyncBuf, Uart, async_buffer_size, async_read_data, echo_enter, echo_delete, echo_plain,
  echo_char, Echo, going, after_echo, echo_loop, echo_read_line,
}
use oscs25_labs.Uart.Fifo.{contents, length-items}
use oscs25_labs.Uart.Buffers.{
  IsUart, Sent, Sent-nil, Sent-trans, send_room, send_string-Sent, read_some,
}

abbrev pub drop_last : List ℕ → List ℕ
drop_last [] = []
drop_last (x ∷ []) = []
drop_last (x ∷ y ∷ xs) = x ∷ drop_last (y ∷ xs)

-- The line that the keys make: 127 takes back the last character.
abbrev pub edited : List ℕ → List ℕ → List ℕ
edited line [] = line
edited line (key ∷ keys) =
    if key == 127 then edited (drop_last line) keys else edited (line ++ key ∷ []) keys

-- What is sent back for the keys: 127 wipes a character if there is one.
abbrev pub wiped : List ℕ → List ℕ
wiped [] = []
wiped (x ∷ xs) = 8 ∷ 32 ∷ 8 ∷ []

abbrev pub echoed : List ℕ → List ℕ → List ℕ
echoed line [] = []
echoed line (key ∷ keys) =
    if key == 127
    then wiped line ++ echoed (drop_last line) keys
    else key ∷ echoed (line ++ key ∷ []) keys

-- The first `n` cells of an array.
abbrev pub prefix : ℕ → (ℕ → ℕ) → List ℕ
prefix zero f = []
prefix (suc n) f = prefix n f ++ f n ∷ []

prefix-frame : (n m v : ℕ) (f : ℕ → ℕ) → n ≤ m → prefix n (update f m v) ≡ prefix n f
prefix-frame zero m v f le = refl
prefix-frame (suc n) m v f le =
    ap₂ (λ (l : List ℕ) (b : ℕ). l ++ b ∷ []) (prefix-frame n m v f (omega arith))
      (update-ne f m v n (λ e. omega arith))

prefix-length : (n : ℕ) (f : ℕ → ℕ) → length (prefix n f) ≡ n
prefix-length zero f = refl
prefix-length (suc n) f = omega (arith, length-append (prefix n f) (f n ∷ []), prefix-length n f)

drop_last-snoc : (xs : List ℕ) (x : ℕ) → drop_last (xs ++ x ∷ []) ≡ xs
drop_last-snoc [] x = refl
drop_last-snoc (y ∷ []) x = refl
drop_last-snoc (y ∷ z ∷ xs) x = ap (λ (l : List ℕ). y ∷ l) (drop_last-snoc (z ∷ xs) x)

wiped-snoc : (xs : List ℕ) (x : ℕ) → wiped (xs ++ x ∷ []) ≡ 8 ∷ 32 ∷ 8 ∷ []
wiped-snoc [] x = refl
wiped-snoc (y ∷ xs) x = refl

-- The outcome: the line with its end, its length with the end counted, what is echoed, and the bytes
-- that stay in the buffer.
pub record ReadLine (line keys rest : List ℕ) (u : Uart) (n : ℕ) (inputline : ℕ → ℕ) (u' : Uart)
    : Type 0 where
  pub count : n ≡ suc (length (edited line keys))
  pub text : prefix (length (edited line keys)) inputline ≡ edited line keys
  pub ends : inputline (length (edited line keys)) ≡ 0
  pub wf : IsUart u'
  pub sent : contents u'.async_tran ≡ contents u.async_tran ++ echoed line keys ++ 13 ∷ 10 ∷ []
  pub left : contents u'.async_recv ≡ rest

abbrev pub Outcome : List ℕ → List ℕ → List ℕ → Uart → Option (ℕ × (ℕ → ℕ) × Uart) → Type 0
Outcome line keys rest u r =
    (n : ℕ) × (inputline : ℕ → ℕ) × (u' : Uart) × (r ≡ some (n, inputline, u'))
    × ReadLine line keys rest u n inputline u'

-- A key that does not end the line.
abbrev typed : ℕ → List ℕ → List ℕ
typed key line = if key == 127 then drop_last line else line ++ key ∷ []

abbrev shown : ℕ → List ℕ → List ℕ
shown key line = if key == 127 then wiped line else key ∷ []

record Typed (key : ℕ) (line : List ℕ) (u : Uart) (r : Option Echo) : Type 0 where
  writehead : ℕ
  inputline : ℕ → ℕ
  after : Uart
  goes_on : r ≡ some (going writehead inputline after)
  text : prefix writehead inputline ≡ typed key line
  sent : Sent (shown key line) u after

prefix_push : (w v : ℕ) (f : ℕ → ℕ) → prefix (w + 1) (update f w v) ≡ prefix w f ++ v ∷ []
prefix_push w v f =
    let next : w + 1 ≡ suc w = omega arith in
    rw next (
      ap₂ (λ (l : List ℕ) (b : ℕ). l ++ b ∷ []) (prefix-frame w w v f (omega arith))
        (update_self f w v))

type_plain :
    (key w : ℕ) (line : List ℕ) (f : ℕ → ℕ) (u : Uart)
    → (key == 127) ≡ false
    → prefix w f ≡ line
    → IsUart u
    → u.async_tran.len + 3 ≤ async_buffer_size
    → Typed key line u (echo_plain key w f u)
unfolding echo_plain
type_plain key w line f u plain e wf room =
    let (u', e₁, s) = send_room key u wf (omega arith) in
    rw e₁ record {
      writehead = w + 1;
      inputline = update f w key;
      after = u';
      goes_on = refl;
      text = rw plain (prefix_push w key f ∙ ap (λ (l : List ℕ). l ++ key ∷ []) e);
      sent = rw plain s;
    }

type_delete :
    (key w : ℕ) (line : List ℕ) (f : ℕ → ℕ) (u : Uart)
    → (key == 127) ≡ true
    → prefix w f ≡ line
    → IsUart u
    → u.async_tran.len + 3 ≤ async_buffer_size
    → Typed key line u (echo_delete w f u)
unfolding echo_delete
type_delete key zero line f u del e wf room = record {
  writehead = 0;
  inputline = f;
  after = u;
  goes_on = refl;
  text = rw (del, sym e) refl;
  sent = rw (del, sym e) (Sent-nil u wf);
}
type_delete key (suc w) line f u del e wf room =
    let (u₁, e₁, s₁) = send_room 8 u wf (omega arith) in
    let (u₂, e₂, s₂) = send_room 32 u₁ s₁.wf (omega (arith, s₁.len)) in
    let (u₃, e₃, s₃) = send_room 8 u₂ s₂.wf (omega (arith, s₁.len, s₂.len)) in
    rw (e₁, e₂, e₃)
      record {
        writehead = w;
        inputline = update f w 0;
        after = u₃;
        goes_on = refl;
        text =
            rw (del, sym e, drop_last-snoc (prefix w f) (f w)) (prefix-frame w w 0 f (omega arith));
        sent =
            rw (del, sym e, wiped-snoc (prefix w f) (f w))
              (Sent-trans (8 ∷ []) (32 ∷ 8 ∷ []) s₁ (Sent-trans (32 ∷ []) (8 ∷ []) s₂ s₃));
      }

type_key :
    (key w : ℕ) (line : List ℕ) (f : ℕ → ℕ) (u : Uart)
    → (key == 13) ≡ false
    → prefix w f ≡ line
    → IsUart u
    → u.async_tran.len + 3 ≤ async_buffer_size
    → Typed key line u (echo_char key w f u)
unfolding echo_char
type_key key w line f u other e wf room = elim (Bool-cases (key == 127)) [
  | inl del ↦ rw (other, del) (type_delete key w line f u del e wf room)
  | inr plain ↦ rw (other, plain) (type_plain key w line f u plain e wf room)
]

shown-length : (key : ℕ) (line : List ℕ) → length (shown key line) ≤ 3
shown-length key [] = elim (Bool-cases (key == 127)) [
  | inl del ↦ rw del (omega arith)
  | inr plain ↦ rw plain (omega arith)
]
shown-length key (x ∷ line) = elim (Bool-cases (key == 127)) [
  | inl del ↦ rw del (omega arith)
  | inr plain ↦ rw plain (omega arith)
]

edited_step :
    (key : ℕ) (line keys : List ℕ) → edited line (key ∷ keys) ≡ edited (typed key line) keys
edited_step key line keys = elim (Bool-cases (key == 127)) [
  | inl del ↦ rw del refl
  | inr plain ↦ rw plain refl
]

echoed_step :
    (key : ℕ) (line keys : List ℕ)
    → echoed line (key ∷ keys) ≡ shown key line ++ echoed (typed key line) keys
echoed_step key line keys = elim (Bool-cases (key == 127)) [
  | inl del ↦ rw del refl
  | inr plain ↦ rw plain refl
]

-- The key that is shown, and then the rest of the keys.
ReadLine-key :
    (key : ℕ) (line keys rest : List ℕ) (u v : Uart) (n : ℕ) (f : ℕ → ℕ) (u' : Uart)
    → contents v.async_tran ≡ contents u.async_tran ++ shown key line
    → ReadLine (typed key line) keys rest v n f u'
    → ReadLine line (key ∷ keys) rest u n f u'
ReadLine-key key line keys rest u v n f u' e r =
    let step = edited_step key line keys in
    record {
      count = rw step r.count;
      text = rw step r.text;
      ends = rw step r.ends;
      wf = r.wf;
      sent =
          let old = contents u.async_tran in
          let more = echoed (typed key line) keys in
          r.sent
          ∙ ap (λ (l : List ℕ). l ++ more ++ 13 ∷ 10 ∷ []) e
          ∙ ap (λ (l : List ℕ). l ++ 13 ∷ 10 ∷ []) (append_assoc old (shown key line) more)
          ∙ ap (λ (l : List ℕ). old ++ l ++ 13 ∷ 10 ∷ []) (sym (echoed_step key line keys));
      left = r.left;
    }

read_enter :
    (n w : ℕ) (line rest : List ℕ) (f : ℕ → ℕ) (u : Uart)
    → prefix w f ≡ line
    → IsUart u
    → contents u.async_recv ≡ 13 ∷ rest
    → u.async_tran.len + 2 ≤ async_buffer_size
    → Outcome line [] rest u (echo_loop (suc n) w f u)
unfolding echo_loop echo_char echo_enter after_echo
read_enter n w line rest f u e wf c room =
    let (u₁, e₁, g) = read_some 13 rest u wf c in
    let (u₂, e₂, s) = send_string-Sent (13 ∷ 10 ∷ []) u₁ g.wf (rw g.tran (omega arith)) in
    let size : length line ≡ w = ap length (sym e) ∙ prefix-length w f in
    rw (e₁, e₂)
      (
        w + 1,
        update f w 0,
        u₂,
        refl,
        record {
          count = omega (arith, size);
          text = rw size (prefix-frame w w 0 f (omega arith) ∙ e);
          ends = rw size (update_self f w 0);
          wf = s.wf;
          sent =
              rw (append-nil (contents u.async_tran))
                (s.tran ∙ ap (λ (b : AsyncBuf). contents b ++ 13 ∷ 10 ∷ []) g.tran);
          left = ap contents s.recv ∙ g.recv;
        },
      )

echo_round :
    (n w : ℕ) (f : ℕ → ℕ) (u : Uart) (key : ℕ) (u₁ : Uart) (w' : ℕ) (f' : ℕ → ℕ) (u₂ : Uart)
    → async_read_data u ≡ some (key, u₁)
    → echo_char key w f u₁ ≡ some (going w' f' u₂)
    → echo_loop (suc n) w f u ≡ echo_loop n w' f' u₂
unfolding echo_loop after_echo
echo_round n w f u key u₁ w' f' u₂ e₁ e₂ = rw (e₁, e₂) refl

read_keys :
    (keys : List ℕ) (n w : ℕ) (line rest : List ℕ) (f : ℕ → ℕ) (u : Uart)
    → length keys < n
    → prefix w f ≡ line
    → IsUart u
    → contents u.async_recv ≡ keys ++ 13 ∷ rest
    → mem 13 keys ≡ false
    → u.async_tran.len + 3 * length keys + 2 ≤ async_buffer_size
    → Outcome line keys rest u (echo_loop n w f u)
read_keys keys zero w line rest f u fuel e wf c plain room = absurd (omega arith)
read_keys [] (suc n) w line rest f u fuel e wf c plain room =
    read_enter n w line rest f u e wf c (omega arith)
read_keys (key ∷ keys) (suc n) w line rest f u fuel e wf c plain room =
    let (u₁, e₁, g) = read_some key (keys ++ 13 ∷ rest) u wf c in
    let t =
      type_key key w line f u₁ (ground (arith, ==_iff key 13)) e g.wf (rw g.tran (omega arith)) in
    let len : t.after.async_tran.len ≤ u.async_tran.len + 3 =
      omega (arith, t.sent.len, ap (λ (b : AsyncBuf). b.len) g.tran, shown-length key line) in
    let (m, f', u', e', r) =
      read_keys keys n t.writehead (typed key line) rest t.inputline t.after (omega arith) t.text
        t.sent.wf (ap contents t.sent.recv ∙ g.recv) (ground arith) (omega arith) in
    (
      m,
      f',
      u',
      echo_round n w f u key u₁ t.writehead t.inputline t.after e₁ t.goes_on ∙ e',
      ReadLine-key key line keys rest u t.after m f' u'
          (t.sent.tran ∙ ap (λ (b : AsyncBuf). contents b ++ shown key line) g.tran) r,
    )

-- A line of keys that ends with a carriage return is in the receive buffer, and the transmit buffer
-- has room for the echo: the call returns, it has stored the line as the deletions leave it with a
-- zero behind it, it returns the length with that zero, it has echoed what shows this line, and the
-- bytes behind the carriage return stay in the receive buffer.
pub echo_read_line-ReadLine :
    (keys rest : List ℕ) (inputline : ℕ → ℕ) (u : Uart)
    → IsUart u
    → contents u.async_recv ≡ keys ++ 13 ∷ rest
    → mem 13 keys ≡ false
    → u.async_tran.len + 3 * length keys + 2 ≤ async_buffer_size
    → Outcome [] keys rest u (echo_read_line inputline u)
unfolding echo_read_line
echo_read_line-ReadLine keys rest inputline u wf c plain room =
    let total : u.async_recv.len ≡ length keys + suc (length rest) =
      sym (length-items u.async_recv.len u.async_recv.head u.async_recv.buffer)
      ∙ ap length c
      ∙ length-append keys (13 ∷ rest) in
    read_keys keys u.async_recv.len 0 [] rest inputline u (omega arith) refl wf c plain room
