-- ===== src/Tests/Ports.antt =====
-- A serial port that is never busy, with two characters received, and a redistributor that wakes up.
use mvmm.Base.{
  ℕ, ◌^◌, ◌≡◌, ◌≢◌, inr, bit_and, ◌==◌, if◌then◌else◌, List, [], ◌∷◌, ◌++◌, ok, arith, refl,
}
use mvmm.Gic.{gicr_addr}
use mvmm.Gic.Start.{
  GicCpu, IsStarted, gicr_ctlr, gicr_waker, gicr_igroupr0, gicr_igrpmodr0, gic_init_cpu,
  gic_init_cpu-IsStarted,
}
use mvmm.Uart.{Serial, fr, fr_txff}
use mvmm.Uart.Fifo.{IsPort}

-- What is received and what is sent.
abbrev pub Chars : Type 0
Chars = List ℕ × List ℕ

abbrev first_char : List ℕ → ℕ
first_char [] = 0
first_char (c ∷ cs) = c

abbrev other_chars : List ℕ → List ℕ
other_chars [] = []
other_chars (c ∷ cs) = cs

abbrev flags_of : List ℕ → ℕ
flags_of [] = 16
flags_of (c ∷ cs) = 0

abbrev pub port : Serial Chars
port = record {
  read = λ reg u.
      if reg == 0
      then (first_char u.0, (other_chars u.0, u.1))
      else if reg == 0x18
      then (flags_of u.0, u)
      else (16, u);
  write = λ reg v u. if reg == 0 then (u.0, u.1 ++ (v ∷ [])) else u;
}

port-empty_flag : (r s : List ℕ) → r ≡ [] → bit_and (port.read fr (r, s)).0 (2 ^ 4) ≢ 0
port-empty_flag [] s e = omega arith
port-empty_flag (c ∷ cs) s e = absurd (cc e)

port-room : (r : List ℕ) → bit_and (flags_of r) fr_txff ≡ 0
port-room [] = refl
port-room (c ∷ cs) = refl

pub port-IsPort : IsPort port (λ u. u.0) (λ u. u.1) (λ u. 0)
port-IsPort = record {
  empty_flag = λ u e. port-empty_flag u.0 u.1 e;
  full_flag = λ u c cs e. rw e (refl, refl);
  flags_kept = λ u e. e;
  take_char = λ u c cs e. rw e (refl, refl);
  status_kept = λ u. refl;
  clear_kept = λ u v. refl;
  ready = λ u e. port-room u.0;
  waits = λ u. inr refl;
  sent_kept = λ u. refl;
  put = λ u c. refl;
}

abbrev pub cold : GicCpu
cold = record {
  sys = record {
    igrpen0 = 1;
    igrpen1 = 0;
    pmr = 0;
    ctlr = 0;
    sre_el2 = 0;
    sre_el1 = 0;
    vmcr = 0;
    hcr = 0;
  };
  bus = [];
  lr_max = 0;
}

-- The redistributor is asleep at the first two reads.
abbrev pub sleepy : ℕ → ℕ
sleepy n = if n == 2 then 0 else 6

gic_init_cpu-IsStarted_example :
    (s' : GicCpu) × (gic_init_cpu sleepy 2 3 1 cold ≡ ok s')
    × IsStarted 3 s'
    × (s'.bus
        ≡ (gicr_addr 1 gicr_waker, bit_and 6 0xfffffffd)
          ∷ (gicr_addr 1 gicr_igrpmodr0, 0)
          ∷ (gicr_addr 1 gicr_igroupr0, 0xffffffff)
          ∷ (gicr_addr 1 gicr_ctlr, 0)
          ∷ [])
gic_init_cpu-IsStarted_example = gic_init_cpu-IsStarted sleepy 2 3 1 1 cold (omega arith) refl
