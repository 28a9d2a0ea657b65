-- ===== src/Uart/Setup.antt =====
-- `init_uart`: the registers that it writes, and the state of the mini UART behind it. The waits
-- between the writes are left out.
use Prim.Native.Nat.{bit_and, bit_or}
use oscs25_labs.Base.{ℕ, ◌+◌, ◌-◌, ◌*◌, ◌^◌, List, [], ◌∷◌, ◌≡◌, refl, true, arith}
use oscs25_labs.Uart.{Uart, AsyncBuf, enable_aux_interrupt}
use oscs25_labs.Uart.Buffers.{IsUart}
use oscs25_labs.Uart.Fifo.{contents}

abbrev mmio_base : ℕ
mmio_base = 0x3F000000

abbrev gpio_base : ℕ
gpio_base = mmio_base + 0x200000

abbrev gpfsel1 : ℕ
gpfsel1 = gpio_base + 0x00004

abbrev gppud : ℕ
gppud = gpio_base + 0x00094

abbrev gppud_clk0 : ℕ
gppud_clk0 = gpio_base + 0x00098

abbrev auxenb : ℕ
auxenb = gpio_base + 0x15004

abbrev aux_mu_cntl_reg : ℕ
aux_mu_cntl_reg = gpio_base + 0x15060

abbrev aux_mu_ier_reg : ℕ
aux_mu_ier_reg = gpio_base + 0x15044

abbrev aux_mu_lcr_reg : ℕ
aux_mu_lcr_reg = gpio_base + 0x1504C

abbrev aux_mu_mcr_reg : ℕ
aux_mu_mcr_reg = gpio_base + 0x15050

abbrev aux_mu_baud_reg : ℕ
aux_mu_baud_reg = gpio_base + 0x15068

abbrev aux_mu_iir_reg : ℕ
aux_mu_iir_reg = gpio_base + 0x15048

-- The pins 14 and 15 get their function 5, which has the code 2.
unfoldable pub select_pins : (fsel_config : ℕ) → ℕ
select_pins fsel_config =
    bit_or (bit_and fsel_config (2 ^ 32 - 1 - 63 * 2 ^ 12)) (2 * 2 ^ 12 + 2 * 2 ^ 15)

-- The writes of registers, in their order; `fsel_config` and `pud_config` are what is read.
unfoldable pub device_writes : (fsel_config : ℕ) → List (ℕ × ℕ)
device_writes fsel_config =
    (gpfsel1, select_pins fsel_config)
    ∷ (gppud, 0)
    ∷ (gppud_clk0, 0x11 * 2 ^ 14)
    ∷ (gppud, 0)
    ∷ (gppud_clk0, 0)
    ∷ (auxenb, 1)
    ∷ (aux_mu_cntl_reg, 0)
    ∷ (aux_mu_ier_reg, 3)
    ∷ (aux_mu_lcr_reg, 3)
    ∷ (aux_mu_mcr_reg, 0)
    ∷ (aux_mu_baud_reg, 270)
    ∷ (aux_mu_iir_reg, 6)
    ∷ (aux_mu_cntl_reg, 3)
    ∷ []

abbrev emptied : AsyncBuf → AsyncBuf
emptied buf = record buf { head = 0; len = 0 }

unfoldable pub init_uart : (fsel_config : ℕ) → Uart → List (ℕ × ℕ) × Uart
init_uart fsel_config u =
    let u' = enable_aux_interrupt (record u { ier = 3 }) in
    (
      device_writes fsel_config,
      record u' { async_recv = emptied u'.async_recv; async_tran = emptied u'.async_tran },
    )

-- Whatever the buffers hold, they are empty and well-formed then, and the interrupts of both
-- directions are enabled.
pub init_uart-IsUart :
    (fsel_config : ℕ) (u : Uart)
    → let u' = (init_uart fsel_config u).1 in
      IsUart u'
      × (contents u'.async_recv ≡ [])
      × (contents u'.async_tran ≡ [])
      × (u'.ier ≡ 3)
      × (u'.irq_enabled ≡ true)
unfolding init_uart enable_aux_interrupt
init_uart-IsUart fsel_config u = (
  record {
    recv = record { head = omega arith; len = omega arith };
    tran = record { head = omega arith; len = omega arith };
  },
  refl,
  refl,
  refl,
  refl,
)
