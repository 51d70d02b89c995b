-- ===== src/Hello/Timer.antt =====
-- guest/hello/timer.c: the guest's driver of the virtual timer. `Cntv` holds the timer's registers.
use mvmm.Base.{ℕ, ◌-◌, ◌*◌, ◌/◌, ◌%◌, ◌^◌, ◌∷◌, ◌++◌, [], bit_and, bit_or, Outcome, ok, ◌>>=◌}
use mvmm.Uart.{Serial}
use mvmm.Hello.Uart.{codes, uart_puts, uart_put64}

-- `freq` is CNTFRQ_EL0, `ctl` and `tval` are CNTV_CTL_EL0 and what was last written to CNTV_TVAL_EL0.
pub record Cntv : Type 0 where
  pub freq : ℕ
  pub ctl : ℕ
  pub tval : ℕ

-- CNTV_CTL_ENABLE and CNTV_CTL_IMASK
abbrev pub ctl_enable : ℕ
ctl_enable = 2 ^ 0

abbrev pub ctl_imask : ℕ
ctl_imask = 2 ^ 1

unfoldable pub enable_timer : Cntv → Cntv
enable_timer t = record t { ctl = bit_and (bit_or t.ctl ctl_enable) (2 ^ 64 - 1 - ctl_imask) }

unfoldable pub disable_timer : Cntv → Cntv
disable_timer t = record t { ctl = bit_or (bit_and t.ctl (2 ^ 64 - 1 - ctl_enable)) ctl_imask }

-- A second, rounded down to microseconds.
unfoldable pub reload_timer : Cntv → Cntv
reload_timer t = record t { tval = 1000000 * (t.freq / 1000000) % 2 ^ 64 }

-- What `timerinit` and `timerintr` do after their messages.
unfoldable pub restart : Cntv → Cntv
restart t = enable_timer (reload_timer (disable_timer t))

module _ {U : Type 0} (port : Serial U) where
  -- Each wait for the serial port is on fuel.
  unfoldable pub timerinit : ℕ → Cntv → U → Outcome (Cntv × U)
  timerinit fuel t u = do
    u1 ← uart_puts port fuel (10 ∷ codes "freq: ") u
    u2 ← uart_put64 port fuel t.freq 10 u1
    ok (restart t, u2)

  unfoldable pub timerintr : ℕ → Cntv → U → Outcome (Cntv × U)
  timerintr fuel t u = do
    u1 ← uart_puts port fuel (codes "timerintr" ++ 10 ∷ []) u
    ok (restart t, u1)
