-- ===== src/Gic/Start.antt =====
-- src/gic.c: the start of the interrupt controller for one processor.
use mvmm.Base.{
  ℕ, zero, suc, ◌+◌, ◌-◌, ◌*◌, ◌^◌, ◌<◌, ◌≤◌, ◌≡◌, bit_and, bit_or, ◌==◌, if◌then◌else◌, Bool-cases,
  inl, inr, ◌∷◌, Outcome, ok, spin, ◌>>=◌, arith, refl, ==-true,
}
use mvmm.Base.Bits.{bit_and-mask}
use mvmm.Gic.{Trace, Device, gicr_addr, gicd_init}

-- The system registers of the interface that are written here.
pub record GicSys : Type 0 where
  pub igrpen0 : ℕ
  pub igrpen1 : ℕ
  pub pmr : ℕ
  pub ctlr : ℕ
  pub sre_el2 : ℕ
  pub sre_el1 : ℕ
  pub vmcr : ℕ
  pub hcr : ℕ

-- Those of one processor, the writes to the bus, and `gic_lr_max`.
pub record GicCpu : Type 0 where
  pub sys : GicSys
  pub bus : Trace
  pub lr_max : ℕ

unfoldable pub gicc_init : GicCpu → GicCpu
gicc_init s = record s {
  sys = record s.sys { igrpen0 = 0; igrpen1 = 1; pmr = 0xff; ctlr = 1 * 2 ^ 1 };
}

abbrev pub gicr_ctlr : ℕ
gicr_ctlr = 0x0

abbrev pub gicr_waker : ℕ
gicr_waker = 0x14

abbrev pub gicr_igroupr0 : ℕ
gicr_igroupr0 = 0x10080

abbrev pub gicr_igrpmodr0 : ℕ
gicr_igrpmodr0 = 0x10d00

abbrev pub gicr_w32 : ℕ → ℕ → ℕ → GicCpu → GicCpu
gicr_w32 cpuid offset v s = record s { bus = (gicr_addr cpuid offset, v) ∷ s.bus }

-- `waker n` is what the read number `n` of GICR_WAKER gives, `vtr` is ICH_VTR_EL2.
module _ (waker : ℕ → ℕ) where
  -- The loop that waits for the redistributor, from read `n` on, as far as the fuel goes.
  unfoldable pub wait_awake : ℕ → ℕ → GicCpu → Outcome GicCpu
  wait_awake zero n s = spin
  wait_awake (suc fuel) n s =
      let rest = wait_awake fuel (n + 1) s in if bit_and (waker n) (2 ^ 2) == 0 then ok s else rest

  unfoldable pub gicr_init : ℕ → ℕ → GicCpu → Outcome GicCpu
  gicr_init fuel cpuid s =
      let s1 : GicCpu = gicr_w32 cpuid gicr_ctlr 0 s in
      let s2 : GicCpu = record s1 {
        sys = record s1.sys {
          sre_el2 = bit_or (bit_or s.sys.sre_el2 (2 ^ 3)) 1;
          sre_el1 = bit_or s.sys.sre_el1 1;
        };
      } in
      let s3 : GicCpu =
        gicr_w32 cpuid gicr_igrpmodr0 0 (gicr_w32 cpuid gicr_igroupr0 (2 ^ 32 - 1) s2) in
      wait_awake fuel 1 (gicr_w32 cpuid gicr_waker (bit_and (waker 0) (2 ^ 32 - 1 - 2 ^ 1)) s3)

  unfoldable pub gic_max_listregs : ℕ → ℕ
  gic_max_listregs vtr = bit_and vtr 0x1f + 1

  unfoldable pub gich_init : ℕ → GicCpu → GicCpu
  gich_init vtr s = record s {
    sys = record s.sys { vmcr = 2 ^ 1; hcr = 2 ^ 0 };
    lr_max = gic_max_listregs vtr;
  }

  unfoldable pub gic_init_cpu : ℕ → ℕ → ℕ → GicCpu → Outcome GicCpu
  gic_init_cpu fuel vtr cpuid s = do s1 ← gicr_init fuel cpuid (gicc_init s); ok (gich_init vtr s1)

  wait_awake-ends :
      (fuel n k : ℕ) (s : GicCpu)
      → k < fuel
      → bit_and (waker (n + k)) (2 ^ 2) ≡ 0
      → wait_awake fuel n s ≡ ok s
  unfolding wait_awake
  wait_awake-ends zero n k s lt awake = absurd (omega arith)
  wait_awake-ends (suc fuel) n zero s lt awake =
      let here : n + 0 ≡ n = omega arith in
      let now : bit_and (waker n) (2 ^ 2) ≡ 0 = rw here at awake in rw (==-true now) refl
  wait_awake-ends (suc fuel) n (suc k) s lt awake =
      let later : n + suc k ≡ n + 1 + k = omega arith in
      elim (Bool-cases (bit_and (waker n) (2 ^ 2) == 0)) [
        | inl now ↦ rw now
        | inr wait ↦ rw wait (wait_awake-ends fuel (n + 1) k s (omega arith) (rw later at awake))
      ]

-- `gic_init`: `hyp_intr_setup` is empty.
unfoldable pub gic_init : Device → Trace → Trace
gic_init dev bus = gicd_init dev bus

-- The processor takes interrupts of group 1 only, of every priority, with the end and the deactivation of
-- an interrupt apart, and presents the virtual ones of its list registers.
pub record IsStarted (vtr : ℕ) (s : GicCpu) : Type 0 where
  pub group0_off : s.sys.igrpen0 ≡ 0
  pub group1_on : s.sys.igrpen1 ≡ 1
  pub all_priorities : s.sys.pmr ≡ 0xff
  pub split_eoi : s.sys.ctlr ≡ 2
  pub virtual_on : s.sys.hcr ≡ 1
  pub virtual_group1 : s.sys.vmcr ≡ 2
  pub registers : (1 ≤ s.lr_max) × (s.lr_max ≤ 32)

-- When the redistributor reports after at most `k` further reads that it is awake, the start of the interrupt
-- controller of a processor ends, with fuel for `k + 1` rounds, and leaves the processor as `IsStarted` says.
-- The last write to the bus asks the redistributor to wake up.
pub gic_init_cpu-IsStarted :
    (waker : ℕ → ℕ) (fuel vtr cpuid k : ℕ) (s : GicCpu)
    → k < fuel
    → bit_and (waker (1 + k)) (2 ^ 2) ≡ 0
    → (s' : GicCpu) × (gic_init_cpu waker fuel vtr cpuid s ≡ ok s')
      × IsStarted vtr s'
      × (s'.bus
          ≡ (gicr_addr cpuid gicr_waker, bit_and (waker 0) 0xfffffffd)
            ∷ (gicr_addr cpuid gicr_igrpmodr0, 0)
            ∷ (gicr_addr cpuid gicr_igroupr0, 0xffffffff)
            ∷ (gicr_addr cpuid gicr_ctlr, 0)
            ∷ s.bus)
unfolding gic_init_cpu gicr_init gicc_init gich_init gic_max_listregs
gic_init_cpu-IsStarted waker fuel vtr cpuid k s lt awake =
    let woken : GicCpu = record {
      sys = record s.sys {
        igrpen0 = 0;
        igrpen1 = 1;
        pmr = 0xff;
        ctlr = 2;
        sre_el2 = bit_or (bit_or s.sys.sre_el2 (2 ^ 3)) 1;
        sre_el1 = bit_or s.sys.sre_el1 1;
      };
      bus =
          (gicr_addr cpuid gicr_waker, bit_and (waker 0) 0xfffffffd)
          ∷ (gicr_addr cpuid gicr_igrpmodr0, 0)
          ∷ (gicr_addr cpuid gicr_igroupr0, 0xffffffff)
          ∷ (gicr_addr cpuid gicr_ctlr, 0)
          ∷ s.bus;
      lr_max = s.lr_max;
    } in
    (
      record woken { sys = record woken.sys { vmcr = 2; hcr = 1 }; lr_max = bit_and vtr 0x1f + 1 },
      rw (wait_awake-ends waker fuel 1 k woken lt awake) refl,
      record {
        group0_off = refl;
        group1_on = refl;
        all_priorities = refl;
        split_eoi = refl;
        virtual_on = refl;
        virtual_group1 = refl;
        registers = omega (arith, bit_and-mask 5 vtr);
      },
      refl,
    )
