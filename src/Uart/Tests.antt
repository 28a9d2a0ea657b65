-- ===== src/Uart/Tests.antt =====
-- The mini UART on small inputs.
use oscs25_labs.Base.{List, ℕ, true, false, [], ◌∷◌, ◌≡◌, refl, arith, update}
use oscs25_labs.Uart.Setup.{init_uart}
use oscs25_labs.Uart.Traffic.{
  Event, interrupt, read, send, traffic, idle_line, InOrder, init_uart-InOrder,
}
use oscs25_labs.Uart.{Uart, echo_read_line}
use oscs25_labs.Uart.Buffers.{IsUart}
use oscs25_labs.Uart.Lines.{Outcome, echo_read_line-ReadLine, edited}

-- The keys a, b, delete, c, return and one more, around the end of the array.
abbrev keys_buffer : ℕ → ℕ
keys_buffer =
    update (update (update (update (update (update (λ _. 0) 2046 97) 2047 98) 0 127) 1 99) 2 13) 3
      100

abbrev nothing : ℕ → ℕ
nothing _ = 0

abbrev uart : Uart
uart = record {
  async_recv = record { buffer = keys_buffer; head = 2046; len = 6 };
  async_tran = record { buffer = nothing; head = 5; len = 1 };
  ier = 3;
  irq_enabled = false;
  uart_mask = true;
}

uart-IsUart : IsUart uart
uart-IsUart = record {
  recv = record { head = omega arith; len = omega arith };
  tran = record { head = omega arith; len = omega arith };
}

edited_runs : edited [] (97 ∷ 98 ∷ 127 ∷ 99 ∷ []) ≡ 97 ∷ 99 ∷ []
edited_runs = refl

echo_read_line-ReadLine_example :
    Outcome [] (97 ∷ 98 ∷ 127 ∷ 99 ∷ []) (100 ∷ []) uart (echo_read_line nothing uart)
echo_read_line-ReadLine_example =
    echo_read_line-ReadLine (97 ∷ 98 ∷ 127 ∷ 99 ∷ []) (100 ∷ []) nothing uart uart-IsUart refl refl
      (omega arith)

-- A byte is received, a byte is sent, and one is read.
abbrev some_events : List Event
some_events = interrupt 4 0 (65 ∷ []) ∷ send 66 ∷ interrupt 2 1 [] ∷ read ∷ []

init_uart-InOrder_example : InOrder (65 ∷ []) (traffic some_events (idle_line (init_uart 0 uart).1))
init_uart-InOrder_example = init_uart-InOrder 0 uart some_events
