-- ===== src/Uart.antt =====
-- lib/mini_uart.c: the receive and transmit buffers of the mini UART, the functions that use them and
-- the interrupt handler between them and the device. `none` is a busy wait that only an interrupt
-- can end.
pub mod Fifo
pub mod Buffers
pub mod Interrupt
pub mod Lines
pub mod Setup
pub mod Traffic
mod Tests
use Prim.Native.Nat.{bit_and, bit_or}
use oscs25_labs.Base.{
  ℕ, zero, suc, ◌+◌, ◌-◌, ◌/◌, ◌%◌, ◌^◌, Bool, true, false, Option, none, some, List, [], ◌∷◌, ltb,
  leb, ◌==◌, ◌>>=◌, if◌then◌else◌, update,
}

abbrev pub async_buffer_size : ℕ
async_buffer_size = 2048

pub record AsyncBuf : Type 0 where
  pub buffer : ℕ → ℕ
  pub head : ℕ
  pub len : ℕ

-- The two buffers, the register `AUX_MU_IER_REG`, and whether interrupt 29 is enabled, with the copy
-- of it (`uart_mask`) in the running workload.
pub record Uart : Type 0 where
  pub async_recv : AsyncBuf
  pub async_tran : AsyncBuf
  pub ier : ℕ
  pub irq_enabled : Bool
  pub uart_mask : Bool

unfoldable pub enable_aux_interrupt : Uart → Uart
enable_aux_interrupt u = record u { irq_enabled = true; uart_mask = false }

unfoldable pub disable_aux_interrupt : Uart → Uart
disable_aux_interrupt u = record u { irq_enabled = false; uart_mask = true }

-- `if(!(*IER & bit)) *IER |= bit`
unfoldable pub enable_ier : ℕ → ℕ → ℕ
enable_ier bit ier = if bit_and ier bit == 0 then bit_or ier bit else ier

-- `*IER &= ~bit`
unfoldable pub disable_ier : ℕ → ℕ → ℕ
disable_ier bit ier = bit_and ier (2 ^ 32 - 1 - bit)

unfoldable pub async_read_data : Uart → Option (ℕ × Uart)
async_read_data u =
    let buf = u.async_recv in
    if buf.len == 0
    then none
    else some (
      buf.buffer buf.head,
      record u {
        async_recv = record buf {
          head = (buf.head + 1) % 2 ^ 32 % async_buffer_size;
          len = buf.len - 1;
        };
        ier = enable_ier 1 u.ier;
      },
    )

unfoldable pub async_send_data : ℕ → Uart → Option Uart
async_send_data c u =
    let buf = u.async_tran in
    let idx = (buf.head + buf.len) % 2 ^ 32 % async_buffer_size in
    if leb async_buffer_size buf.len
    then none
    else some (record u {
      async_tran = record buf { buffer = update buf.buffer idx c; len = (buf.len + 1) % 2 ^ 32 };
      ier = enable_ier 2 u.ier;
    })

-- `_send_string_` with the sending function it is given; a string is the list of its characters.
unfoldable pub send_string_by : (ℕ → Uart → Option Uart) → List ℕ → Uart → Option Uart
send_string_by send_func [] u = some u
send_string_by send_func (c ∷ str) u = do u' ← send_func c u; send_string_by send_func str u'

unfoldable pub send_string : List ℕ → Uart → Option Uart
send_string str u = send_string_by async_send_data str u

unfoldable pub send_line_by : (ℕ → Uart → Option Uart) → List ℕ → Uart → Option Uart
send_line_by send_func line u = do
  u₁ ← send_string_by send_func line u
  u₂ ← send_func 13 u₁
  send_func 10 u₂

unfoldable pub send_line : List ℕ → Uart → Option Uart
send_line line u = send_line_by async_send_data line u

-- What is left of `read_to_buf` once one byte is read: the loop ends if the buffer is empty then.
unfoldable pub read_loop : ℕ → ℕ → (ℕ → ℕ) → Uart → Option (ℕ × (ℕ → ℕ) × Uart)
read_loop zero total_read buffer u = some (total_read, buffer, u)
read_loop (suc n) total_read buffer u = do
  (data_byte, u') ← async_read_data u
  let more = read_loop n (total_read + 1) (update buffer total_read data_byte) u' in
      if u'.async_recv.len == 0
      then some (total_read + 1, update buffer total_read data_byte, u')
      else more

-- The loop counts `total_read` up to `size`.
unfoldable pub read_to_buf : (ℕ → ℕ) → ℕ → Uart → Option (ℕ × (ℕ → ℕ) × Uart)
read_to_buf buffer size u = read_loop size 0 buffer u

unfoldable pub send_loop : ℕ → ℕ → (ℕ → ℕ) → Uart → Option (ℕ × Uart)
send_loop zero total_send buffer u = some (total_send, u)
send_loop (suc n) total_send buffer u = do
  u' ← async_send_data (buffer total_send) u
  let more = send_loop n (total_send + 1) buffer u' in
      if u'.async_tran.len == async_buffer_size then some (total_send + 1, u') else more

unfoldable pub send_from_buf : (ℕ → ℕ) → ℕ → Uart → Option (ℕ × Uart)
send_from_buf buffer size u = send_loop size 0 buffer u

-- One round of the loop of `echo_read_line`: the line is complete, or it goes on.
pub data Echo : Type 0 where
  complete : ℕ → (ℕ → ℕ) → Uart → Echo
  going : ℕ → (ℕ → ℕ) → Uart → Echo

unfoldable pub echo_enter : ℕ → (ℕ → ℕ) → Uart → Option Echo
echo_enter writehead inputline u = do
  u' ← send_string (13 ∷ 10 ∷ []) u
  some (complete (writehead + 1) (update inputline writehead 0) u')

unfoldable pub echo_delete : ℕ → (ℕ → ℕ) → Uart → Option Echo
echo_delete zero inputline u = some (going 0 inputline u)
echo_delete (suc writehead) inputline u = do
  u₁ ← async_send_data 8 u
  u₂ ← async_send_data 32 u₁
  u₃ ← async_send_data 8 u₂
  some (going writehead (update inputline writehead 0) u₃)

unfoldable pub echo_plain : ℕ → ℕ → (ℕ → ℕ) → Uart → Option Echo
echo_plain input writehead inputline u = do
  u' ← async_send_data input u
  some (going (writehead + 1) (update inputline writehead input) u')

unfoldable pub echo_char : ℕ → ℕ → (ℕ → ℕ) → Uart → Option Echo
echo_char input writehead inputline u =
    if input == 13
    then echo_enter writehead inputline u
    else if input == 127
    then echo_delete writehead inputline u
    else echo_plain input writehead inputline u

unfoldable pub after_echo :
    (ℕ → (ℕ → ℕ) → Uart → Option (ℕ × (ℕ → ℕ) × Uart)) → Echo → Option (ℕ × (ℕ → ℕ) × Uart)
after_echo again (complete writehead inputline u) = some (writehead, inputline, u)
after_echo again (going writehead inputline u) = again writehead inputline u

-- A round takes one byte, so `n` bytes in the buffer allow `n` rounds before the loop waits.
unfoldable pub echo_loop : ℕ → ℕ → (ℕ → ℕ) → Uart → Option (ℕ × (ℕ → ℕ) × Uart)
echo_loop zero writehead inputline u = none
echo_loop (suc n) writehead inputline u = do
  (input, u') ← async_read_data u
  r ← echo_char input writehead inputline u'
  after_echo (echo_loop n) r

unfoldable pub echo_read_line : (ℕ → ℕ) → Uart → Option (ℕ × (ℕ → ℕ) × Uart)
echo_read_line inputline u = echo_loop u.async_recv.len 0 inputline u

-- The receive loop of the handler, on the bytes that the device has ready; what is left stays there.
unfoldable pub receive_loop : List ℕ → AsyncBuf → ℕ → List ℕ × AsyncBuf × ℕ
receive_loop [] buf ier = ([], buf, ier)
receive_loop (b ∷ ready) buf ier =
    let idx = (buf.head + buf.len) % 2 ^ 32 % async_buffer_size in
    let buf' = record buf {
      buffer = update buf.buffer idx (b % 2 ^ 8);
      len = (buf.len + 1) % 2 ^ 32;
    } in
    let more = receive_loop ready buf' ier in
    if leb async_buffer_size buf.len then (b ∷ ready, buf, disable_ier 1 ier) else more

-- The transmit loop, on the number of bytes for which the device has room, and what it sends.
unfoldable pub transmit_loop : ℕ → AsyncBuf → ℕ → List ℕ × AsyncBuf × ℕ
transmit_loop zero buf ier = ([], buf, ier)
transmit_loop (suc room) buf ier =
    let (sent, buf', ier') =
      transmit_loop room
        (record buf { head = (buf.head + 1) % 2 ^ 32 % async_buffer_size; len = buf.len - 1 })
        ier in
    if buf.len == 0 then ([], buf, disable_ier 2 ier) else (buf.buffer buf.head ∷ sent, buf', ier')

-- The device during an interrupt: what `AUX_MU_IIR_REG` reads, the bytes received and the room to
-- send. The result adds the bytes that stay at the device and those sent to it.
unfoldable pub uart_except_handler : ℕ → List ℕ → ℕ → Uart → List ℕ × List ℕ × Uart
uart_except_handler iir ready room u =
    let interrupt_id = iir / 2 % 4 in
    let (left, recv', ier_r) = receive_loop ready u.async_recv u.ier in
    let (sent, tran', ier_t) = transmit_loop room u.async_tran u.ier in
    if interrupt_id == 2
    then (left, [], enable_aux_interrupt (record u { async_recv = recv'; ier = ier_r }))
    else if interrupt_id == 1
    then (ready, sent, enable_aux_interrupt (record u { async_tran = tran'; ier = ier_t }))
    else (ready, [], enable_aux_interrupt u)
