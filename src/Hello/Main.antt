-- ===== src/Hello/Main.antt =====
-- guest/hello/hello.c: the guest program itself, over its interrupt controller, serial port and timer.
use mvmm.Base.{
  ℕ, ◌+◌, ◌-◌, ◌*◌, ◌%◌, ◌^◌, bit_and, Bool, true, false, ◌==◌, if◌then◌else◌, List, [], ◌∷◌, ◌++◌,
  Outcome, ok, ◌>>=◌,
}
use mvmm.Uart.{Serial}
use mvmm.Hello.Gic.{Bus, CpuIf, gicv3_addrs, gic_dist_init, gic_setup_spi, gicv3_init_percpu}
use mvmm.Hello.Uart.{codes, uart_puts, uart_put64, uartintr, uart_init}
use mvmm.Hello.Timer.{Cntv, timerinit, timerintr}

-- `eois` are the writes of ICC_EOIR1_EL1, the last one first; `unmasked` says that PSTATE.I is clear.
pub record Program (S U : Type 0) : Type 0 where
  pub devices : S
  pub port : U
  pub cpu_if : CpuIf
  pub timer : Cntv
  pub eois : List ℕ
  pub vectors : Bool
  pub unmasked : Bool

module _ {S U : Type 0} (bus : Bus S) (serial : Serial U) (fuel : ℕ) where
  abbrev say : List ℕ → Program S U → Outcome (Program S U)
  say text g = do u ← uart_puts serial fuel text g.port; ok (record g { port = u })

  abbrev number : ℕ → ℕ → Program S U → Outcome (Program S U)
  number n base g = do u ← uart_put64 serial fuel n base g.port; ok (record g { port = u })

  -- UART_IRQ is 33; the messages about the distributor come before its groups are written, which the port
  -- does not see.
  unfoldable pub gicv3_init : Program S U → Outcome (Program S U)
  gicv3_init g = do
    g1 ← say (codes "gicv3 init..." ++ 10 ∷ []) g
    (typer, s1) ← gic_dist_init bus gicv3_addrs g1.devices
    g2 ← number typer 16 g1
    g3 ← say (codes " nnnnnn ") g2
    g4 ← number ((32 * (bit_and typer 0x1f + 1) - 1)) 10 g3
    s2 ← gic_setup_spi bus gicv3_addrs 33 0 s1
    ok (record g4 { devices = s2 })

  -- `gic_eoi`
  unfoldable pub gic_eoi : ℕ → Program S U → Program S U
  gic_eoi iar g = record g { eois = iar ∷ g.eois }

  -- TIMER_IRQ is 27. `rounds` bounds the characters that are echoed.
  unfoldable pub devintr : ℕ → ℕ → Program S U → Outcome (Bool × Program S U)
  devintr rounds iar g =
      let irq = bit_and iar 0x3ff in
      let uart = (do
        u ← uartintr serial fuel rounds g.port
        ok (true, gic_eoi iar (record g { port = u }))) in
      let timer = (do
        (t, u) ← timerintr serial fuel g.timer g.port
        ok (true, gic_eoi iar (record g { timer = t; port = u }))) in
      let other = (do g1 ← say (codes "????????" ++ 10 ∷ []) g; ok (false, g1)) in
      if irq == 33 then uart else if irq == 27 then timer else other

  -- `iar` is what `gic_iar` reads.
  unfoldable pub el1trap : ℕ → ℕ → Program S U → Outcome (Program S U)
  el1trap rounds iar g = do
    (served, g1) ← devintr rounds iar g
    if served then ok g1 else say (codes "sync!") g1

  -- `main` up to its endless loop, which does nothing. `sctlr` is the value of SCTLR_EL1.
  unfoldable pub main : ℕ → Program S U → Outcome (Program S U)
  main sctlr g = do
    g1 ← say (codes "hello, guest world!" ++ 10 ∷ []) (record g { port = uart_init serial g.port })
    g2 ← gicv3_init g1
    (c, s) ← gicv3_init_percpu bus gicv3_addrs fuel g2.cpu_if g2.devices
    (t, u) ← timerinit serial fuel g2.timer g2.port
    let g3 : Program S U = record g2 {
      devices = s;
      cpu_if = c;
      timer = t;
      port = u;
      vectors = true;
    }
    g4 ← say (10 ∷ []) g3
    g5 ← number (sctlr % 2 ^ 32) 16 g4
    say (10 ∷ (codes "intr" ++ 10 ∷ [])) (record g5 { unmasked = true })
