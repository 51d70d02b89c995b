-- ===== src/Hello/Uart.antt =====
-- guest/hello/uart.c: the guest's driver of the serial port, over a device as in Uart. A text is the list of its
-- characters.
use mvmm.Base.{
  ℕ, zero, suc, ◌+◌, ◌-◌, ◌*◌, ◌/◌, ◌%◌, ◌^◌, bit_and, bit_or, leb, ltb, ◌==◌, if◌then◌else◌, List,
  [], ◌∷◌, Outcome, ok, fault, spin, ◌>>=◌,
}
use Prim.Native.String.{String}
use Prim.Native.Char.{code}
use mvmm.Uart.{Serial, dr, fr, fr_rxfe, fr_txff, mis, icr}

-- The characters of a text of the source; `\n` is the character 10.
abbrev pub codes : String → List ℕ
codes String.[] = []
codes (String.◌∷◌ c s) = code c ∷ codes s

-- `"0123456789abcdef"[d]`; the text ends with a null character.
unfoldable pub digit : ℕ → Outcome ℕ
digit d =
    if ltb d 10
    then ok (b'0' + d)
    else if ltb d 16
    then ok (b'a' + (d - 10))
    else if d == 16
    then ok 0
    else fault

-- `do *--cur = ...; while(num /= base);` with the characters that are in the buffer, which has room for 64;
-- the fuel is the room that is left.
unfoldable pub digits : ℕ → ℕ → ℕ → List ℕ → Outcome (List ℕ)
digits zero num base cur = fault
digits (suc room) num base cur = do
  c ← digit (num % base)
  let rest = digits room (num / base) base (c ∷ cur)
  if num / base == 0 then ok (c ∷ cur) else rest

module _ {U : Type 0} (port : Serial U) where
  -- The wait is on fuel.
  unfoldable pub uart_putc : ℕ → ℕ → U → Outcome U
  uart_putc zero c u = spin
  uart_putc (suc fuel) c u =
      let (flags, u1) = port.read fr u in
      let again = uart_putc fuel c u1 in
      if bit_and flags fr_txff == 0 then ok (port.write dr c u1) else again

  -- Up to the first null character.
  unfoldable pub uart_puts : ℕ → List ℕ → U → Outcome U
  uart_puts fuel [] u = ok u
  uart_puts fuel (c ∷ cs) u =
      let round = (do u1 ← uart_putc fuel c u; uart_puts fuel cs u1) in
      if c == 0 then ok u else round

  unfoldable pub uart_put64 : ℕ → ℕ → ℕ → U → Outcome U
  uart_put64 fuel num base u = do
    text ← if base == 0 then fault else digits 64 num base []
    uart_puts fuel text u

  -- An `int`, as the 32-bit word; -1 is the largest.
  unfoldable pub uart_getc : U → ℕ × U
  uart_getc u =
      let (flags, u1) = port.read fr u in
      if bit_and flags fr_rxfe == 0 then port.read dr u1 else (2 ^ 32 - 1, u1)

  -- `for(;;)` on fuel, each wait in it on fuel of its own. A word with the top bit set is negative.
  unfoldable pub echo : ℕ → ℕ → U → Outcome U
  echo fuel zero u = spin
  echo fuel (suc rounds) u =
      let (c, u1) = uart_getc u in
      let round = (do u2 ← uart_putc fuel (c % 2 ^ 8) u1; echo fuel rounds u2) in
      if leb (2 ^ 31) c then ok u1 else round

  unfoldable pub uartintr : ℕ → ℕ → U → Outcome U
  uartintr fuel rounds u = do
    let (status, u1) = port.read mis u
    u2 ← if bit_and status (2 ^ 4) == 0 then ok u1 else echo fuel rounds u1
    u3 ← if bit_and status (2 ^ 5) == 0 then ok u2 else uart_putc fuel b'!' u2
    ok (port.write icr (2 ^ 4) u3)

  -- Off, no interrupts, FIFOs and 8-bit words, on, the interrupt of received characters.
  unfoldable pub uart_init : U → U
  uart_init u =
      let off : U = port.write 0x38 0 (port.write 0x30 0 u) in
      let set : U = port.write 0x2c (bit_or (2 ^ 4) (3 * 2 ^ 5)) off in
      port.write 0x38 (2 ^ 4) (port.write 0x30 0x301 set)
