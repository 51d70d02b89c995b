-- ===== src/Uart.antt =====
-- src/uart.c: the serial port. The device is a parameter: what a read of a register gives and does, and what
-- a write does.
pub mod Fifo
use mvmm.Base.{
  ℕ, zero, suc, ◌+◌, ◌^◌, bit_and, Bool, not, ◌==◌, if◌then◌else◌, Option, none, some, Outcome, ok,
  spin, ◌>>=◌,
}
use mvmm.Memory.{Mem}

pub record Serial (U : Type 0) : Type 0 where
  pub read : ℕ → U → ℕ × U
  pub write : ℕ → ℕ → U → U

abbrev pub dr : ℕ
dr = 0x00

abbrev pub fr : ℕ
fr = 0x18

-- FR_RXFE and FR_TXFF
abbrev pub fr_rxfe : ℕ
fr_rxfe = 2 ^ 4

abbrev pub fr_txff : ℕ
fr_txff = 2 ^ 5

abbrev pub mis : ℕ
mis = 0x40

abbrev pub icr : ℕ
icr = 0x44

module _ {U : Type 0} (port : Serial U) where
  -- The waits of the loops are on fuel.
  unfoldable pub uart_putc : ℕ → ℕ → U → Outcome U
  uart_putc zero c u = spin
  uart_putc (suc fuel) c u =
      let (flags, u1) = port.read fr u in
      let again = uart_putc fuel c u1 in
      if bit_and flags fr_txff == 0 then ok (port.write dr c u1) else again

  -- `chars` bounds the rounds over the string, `fuel` each wait.
  unfoldable pub uart_puts : ℕ → ℕ → Mem → ℕ → U → Outcome U
  uart_puts fuel zero m s u = spin
  uart_puts fuel (suc chars) m s u =
      let round = (do u1 ← uart_putc fuel (m s) u; uart_puts fuel chars m (s + 1) u1) in
      if m s == 0 then ok u else round

  -- `none` is the result -1.
  unfoldable pub uart_getc : U → Option ℕ × U
  uart_getc u =
      let (flags, u1) = port.read fr u in
      let (c, u2) = port.read dr u1 in
      if bit_and flags fr_rxfe == 0 then (some c, u2) else (none, u1)

  -- `if(c < 0) break;`, and what comes after it.
  abbrev pub unless_empty : (U → Outcome U) → Option ℕ × U → Outcome U
  unless_empty again (none, u) = ok u
  unless_empty again (some c, u) = again u

  unfoldable pub drain : ℕ → U → Outcome U
  drain zero u = spin
  drain (suc fuel) u = unless_empty (drain fuel) (uart_getc u)

  -- INT_RX_ENABLE is bit 4. The Boolean is `true` if the dump of the current virtual processor is called.
  unfoldable pub uartintr : ℕ → U → Outcome (Bool × U)
  uartintr fuel u = do
    let (status, u1) = port.read mis u
    let idle : Bool = bit_and status (2 ^ 4) == 0
    u2 ← if idle then ok u1 else drain fuel u1
    ok (not idle, port.write icr (2 ^ 4) u2)

  -- Off, no interrupts, FIFOs and 8-bit words, on, the interrupt of received characters.
  unfoldable pub uart_init : U → U
  uart_init u =
      let off : U = port.write 0x38 0 (port.write 0x30 0 u) in
      port.write 0x38 (2 ^ 4) (port.write 0x30 0x301 (port.write 0x2c 0x70 off))
