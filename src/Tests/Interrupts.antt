-- ===== src/Tests/Interrupts.antt =====
-- The virtual interrupt controller on concrete interrupts, and the distributor on a concrete device.
use mvmm.Base.{
  ℕ, zero, suc, ◌+◌, ◌-◌, ◌*◌, ◌/◌, ◌%◌, ◌^◌, ◌≤◌, ◌<◌, ◌≡◌, ◌⊎◌, ◌==◌, ltb, ◌&&◌, if◌then◌else◌,
  true, false, ok, panic, arith, refl, bit_or, [], ◌∷◌, some, ==-true,
}
use mvmm.Base.Bits.{bit, bit-bit_or, bit-zero}
use mvmm.Spinlock.{spinlock_init}
use mvmm.Gic.{
  Interface, GicState, Trace, Device, gicd_base, gicd_isenabler, gicd_icenabler, gic_irq_enable,
  gic_make_lr, gic_read_lr, gic_write_lr, update, lr_state, lr_pending, lr_is_inactive,
  gic_restore_state, gic_save_state,
}
use mvmm.Gic.ListReg.{gic_make_lr_fields, save-restore}
use mvmm.Gic.Distributor.{IsDistributor}
use mvmm.Vgic.{VgicIrq, Vm}
use mvmm.Vgic.Gicd.{vgicd_mmio_write, vgicd_mmio_read}
use mvmm.Vgic.Priority.{ipriorityr-read_write}
use mvmm.Vgic.Lr.{
  LrState, vgic_inject_virq, vgic_irq_enter, vgic_cpu_alloc_lr, alloc_from, enter_from,
}
use mvmm.Vgic.Lr.Laws.{Injected, inject-cases, vgic_irq_enter_lem}
use mvmm.Vgic.Lr.Ownership.{here, next, enter, inject_no_loss}

-- Register 0 holds a pending interrupt, register 1 one that the guest has finished.
abbrev two_used : LrState
two_used = record {
  used_lr = 3;
  hw = record { lr = λ n. if n == 0 then 0x7000002100000021 else 0; vmcr = 0; sre_el1 = 0 };
}

inject-cases_example :
    ((n : ℕ) × (s' : LrState) × (vgic_inject_virq 4 0x22 0x22 1 two_used ≡ ok s')
      × Injected 4 0x22 0x22 1 two_used s' n)
    ⊎ ((vgic_inject_virq 4 0x22 0x22 1 two_used ≡ panic)
        × ((k : ℕ) → k < 4 → bit two_used.used_lr k ≡ 1))
inject-cases_example = inject-cases 4 0x22 0x22 1 two_used (omega arith) (omega arith)

vgic_irq_enter_lem_example :
    (s' : LrState) × (vgic_irq_enter 4 two_used ≡ ok s')
    × (s'.hw ≡ two_used.hw)
    × (s'.used_lr < 2 ^ 16)
    × ((k : ℕ)
        → bit s'.used_lr k
          ≡ (if ltb k 4 && lr_is_inactive (two_used.hw.lr k) then 0 else bit two_used.used_lr k))
vgic_irq_enter_lem_example = vgic_irq_enter_lem 4 two_used (omega arith) (omega arith)

gic_make_lr_fields_example :
    let lr = gic_make_lr 33 33 1 in
    (lr_state lr ≡ lr_pending)
    × (lr / 2 ^ 61 % 2 ≡ 1)
    × (lr / 2 ^ 60 % 2 ≡ 1)
    × (lr / 2 ^ 32 % 1024 ≡ 33)
    × (lr % 2 ^ 32 ≡ 33)
    × (lr_is_inactive lr ≡ false)
gic_make_lr_fields_example = gic_make_lr_fields 33 33 1 (omega arith) (omega arith) (omega arith)

abbrev other_interface : Interface
other_interface = record { lr = λ n. n + 100; vmcr = 7; sre_el1 = 1 }

abbrev blank_state : GicState
blank_state = record { lr = λ n. 0; vmcr = 0; sre_el1 = 0 }

save-restore_example :
    let back = gic_restore_state 4 (gic_save_state 4 blank_state two_used.hw) other_interface in
    ((k : ℕ) → k < 4 → back.lr k ≡ two_used.hw.lr k)
    × ((k : ℕ) → 4 ≤ k → back.lr k ≡ other_interface.lr k)
    × (back.vmcr ≡ two_used.hw.vmcr)
    × (back.sre_el1 ≡ bit_or (other_interface.sre_el1 % 2 ^ 32) (two_used.hw.sre_el1 % 2 ^ 32))
save-restore_example = save-restore 4 blank_state two_used.hw other_interface (omega arith)

-- `x` without the bits of `v`, digit by digit.
clear_bits : ℕ → ℕ → ℕ → ℕ
clear_bits zero x v = 0
clear_bits (suc fuel) x v = (x % 2 - v % 2) + 2 * clear_bits fuel (x / 2) (v / 2)

bit-clear_bits : (fuel x v k : ℕ) → x ≤ fuel → bit (clear_bits fuel x v) k ≡ bit x k - bit v k
unfolding clear_bits bit
bit-clear_bits zero x v k le = let e : x ≡ 0 = omega arith in rw (e, bit-zero k) (omega arith)
bit-clear_bits (suc fuel) x v zero le = omega arith
bit-clear_bits (suc fuel) x v (suc k) le =
    let half : (x % 2 - v % 2 + 2 * clear_bits fuel (x / 2) (v / 2)) / 2
        ≡ clear_bits fuel (x / 2) (v / 2) =
      omega arith in
    rw half (bit-clear_bits fuel (x / 2) (v / 2) k (omega arith))

-- The enable bits of bank `n` after the writes.
bank : Trace → ℕ → ℕ
unfolding clear_bits
bank [] n = 0
bank ((a, v) ∷ bus) n =
    let old = bank bus n in
    if a == gicd_base + gicd_isenabler n
    then bit_or old v
    else if a == gicd_base + gicd_icenabler n
    then clear_bits old old v
    else old

abbrev distributor : Device
distributor = λ bus a. bank bus ((a - (gicd_base + 0x100)) / 4 % 32)

distributor-IsDistributor : IsDistributor distributor
unfolding bank
distributor-IsDistributor = record {
  same_view = λ bus n lt.
      let e : (gicd_base + gicd_icenabler n - (gicd_base + 0x100)) / 4 % 32 ≡ n = omega arith in
      let e' : (gicd_base + gicd_isenabler n - (gicd_base + 0x100)) / 4 % 32 ≡ n = omega arith in
      rw (e, e');
  write_set = λ bus n v k lt.
      let e' : (gicd_base + gicd_isenabler n - (gicd_base + 0x100)) / 4 % 32 ≡ n = omega arith in
      rw (e', ==-true {a = gicd_base + gicd_isenabler n} {b = gicd_base + gicd_isenabler n} refl)
        (bit-bit_or (bank bus n) v k);
  write_clear = λ bus n v k lt.
      let e' : (gicd_base + gicd_isenabler n - (gicd_base + 0x100)) / 4 % 32 ≡ n = omega arith in
      let apart : (gicd_base + gicd_icenabler n == gicd_base + gicd_isenabler n) ≡ false =
        ground arith in
      rw
        (
          e',
          apart,
          ==-true {a = gicd_base + gicd_icenabler n} {b = gicd_base + gicd_icenabler n} refl,
        )
        (bit-clear_bits (bank bus n) (bank bus n) v k (omega arith));
}

abbrev enabled_34 : Trace
enabled_34 = gic_irq_enable distributor 34 []

abbrev pub idle_irq : VgicIrq
idle_irq = record { priority = 0; target = 0; enabled = 0; igroup = 1 }

-- A virtual machine with the structs of all interrupts that the registers name.
abbrev pub small_vm : Vm
small_vm = record {
  nvcpu = 1;
  enabled = true;
  nspis = 987;
  lock = spinlock_init;
  cell = λ r. some idle_irq;
  bus = [];
}

ipriorityr-read_write_example :
    (vm' : Vm) × (vgicd_mmio_write distributor 0 0 (0x400 + 4 * 9) 0xa0b0c0d0 small_vm
      ≡ ok (some vm'))
    × (vgicd_mmio_read distributor 0 0 (0x400 + 4 * 9) vm'
        ≡ ok (some 0xa0b0c0d0, record vm' { lock = spinlock_init }))
ipriorityr-read_write_example =
    ipriorityr-read_write distributor 0 0 9 0xa0b0c0d0 small_vm (λ k. idle_irq) (omega arith)
      (omega arith) refl (λ k lt. refl)

-- The release of register 1, and the injection that takes it again.
abbrev one_used : LrState
one_used = record two_used { used_lr = 1 }

two_used-enter : vgic_irq_enter 2 two_used ≡ ok one_used
unfolding vgic_irq_enter enter_from gic_read_lr lr_is_inactive
two_used-enter = refl

abbrev refilled : LrState
refilled = record {
  used_lr = 3;
  hw = record two_used.hw { lr = update two_used.hw.lr 1 (gic_make_lr 34 34 1) };
}

one_used-inject : vgic_inject_virq 2 34 34 1 one_used ≡ ok refilled
unfolding vgic_inject_virq vgic_cpu_alloc_lr alloc_from gic_write_lr
one_used-inject = refl

two_used-owned :
    (k : ℕ) → k < 2 → lr_is_inactive (two_used.hw.lr k) ≡ false → bit two_used.used_lr k ≡ 1
unfolding bit
two_used-owned zero lt busy = refl
two_used-owned (suc zero) lt busy = refl
two_used-owned (suc (suc k)) lt busy = absurd (omega arith)

inject_no_loss_example :
    (n : ℕ) × (n < 2)
    × (lr_is_inactive (one_used.hw.lr n) ≡ true)
    × Injected 2 34 34 1 one_used refilled n
inject_no_loss_example =
    inject_no_loss 2 34 34 1 (omega arith) (record { fits = omega arith; owned = two_used-owned })
      (next here (enter two_used-enter)) one_used-inject
