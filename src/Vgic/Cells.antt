-- ===== src/Vgic/Cells.antt =====
-- The interrupts' structs as cells, and what one write does to them.
use mvmm.Base.{
  ◌∙◌, ℕ, refl, ◌≡◌, ◌==◌, if◌then◌else◌, Option, none, some, ok, fault, arith, Outcome,
}
use mvmm.Gic.{Device}
use mvmm.Vgic.{
  VgicIrq, IrqRef, same_ref, Vm, vgic_get_irq, read_irq, put_irq, vgic_irq_enable, vgic_irq_disable,
  enable_one, disable_one, target_one, priority_one, vgic_set_target,
}

-- Different interrupt numbers of one virtual processor are different cells.
pub same_ref-vgic_get_irq : (v a b : ℕ) → same_ref (vgic_get_irq v a) (vgic_get_irq v b) ≡ (a == b)
unfolding vgic_get_irq same_ref
same_ref-vgic_get_irq v a b = ground arith

pub read_irq-there :
    (vm : Vm) (r : IrqRef) {irq : VgicIrq} → vm.cell r ≡ some irq → read_irq vm r ≡ ok irq
unfolding read_irq
read_irq-there vm r e = ground arith

pub read_irq-missing : (vm : Vm) (r : IrqRef) → vm.cell r ≡ none → read_irq vm r ≡ fault
unfolding read_irq
read_irq-missing vm r e = ground arith

abbrev pub map_irq : (VgicIrq → VgicIrq) → Option VgicIrq → Option VgicIrq
map_irq f none = none
map_irq f (some irq) = some (f irq)

-- What a write to a cell leaves alone.
abbrev pub Kept : Vm → Vm → Type 0
Kept vm vm' = (vm'.lock ≡ vm.lock) × (vm'.nvcpu ≡ vm.nvcpu) × (vm'.enabled ≡ vm.enabled)

pub Kept-trans : (vm vm1 vm2 : Vm) → Kept vm vm1 → Kept vm1 vm2 → Kept vm vm2
Kept-trans vm vm1 vm2 (l, n, e) (l', n', e') = (l' ∙ l, n' ∙ n, e' ∙ e)

-- `one` writes `f` of its struct to its own cell of the processor `vcpu`, and faults where the cell is
-- outside the arrays.
pub record IsCellWrite (one : ℕ → Vm → Outcome Vm) (vcpu : ℕ) (f : VgicIrq → VgicIrq) : Type 0 where
  pub there :
      (intid : ℕ) (vm : Vm) (irq : VgicIrq)
      → vm.cell (vgic_get_irq vcpu intid) ≡ some irq
      → (vm' : Vm) × (one intid vm ≡ ok vm')
        × ((j : ℕ)
            → vm'.cell (vgic_get_irq vcpu j)
              ≡ (if j == intid then some (f irq) else vm.cell (vgic_get_irq vcpu j)))
  pub missing :
      (intid : ℕ) (vm : Vm) → vm.cell (vgic_get_irq vcpu intid) ≡ none → one intid vm ≡ fault
  pub kept : (intid : ℕ) (vm vm' : Vm) → one intid vm ≡ ok vm' → Kept vm vm'

module _ (dev : Device) where
  enable_one-Kept :
      (me vcpu intid : ℕ) (vm vm' : Vm) → enable_one dev me vcpu intid vm ≡ ok vm' → Kept vm vm'
  unfolding enable_one read_irq vgic_irq_enable
  enable_one-Kept me vcpu intid vm vm' e = (ground arith, ground arith, ground arith)

  disable_one-Kept :
      (vcpu intid : ℕ) (vm vm' : Vm) → disable_one dev vcpu intid vm ≡ ok vm' → Kept vm vm'
  unfolding disable_one read_irq vgic_irq_disable
  disable_one-Kept vcpu intid vm vm' e = (ground arith, ground arith, ground arith)

  target_one-Kept :
      (vcpu b intid : ℕ) (vm vm' : Vm) → target_one dev vcpu b intid vm ≡ ok vm' → Kept vm vm'
  unfolding target_one read_irq vgic_set_target
  target_one-Kept vcpu b intid vm vm' e = (ground arith, ground arith, ground arith)

  pub enable_one-IsCellWrite :
      (me vcpu : ℕ) → IsCellWrite (enable_one dev me vcpu) vcpu (λ irq. record irq { enabled = 1 })
  unfolding enable_one vgic_irq_enable
  enable_one-IsCellWrite me vcpu = record {
    there = λ intid vm irq e. (
      vgic_irq_enable dev me intid
          (put_irq vm (vgic_get_irq vcpu intid) (record irq { enabled = 1 })),
      rw (read_irq-there vm (vgic_get_irq vcpu intid) e),
      λ j. rw (same_ref-vgic_get_irq vcpu j intid),
    );
    missing = λ intid vm e. rw (read_irq-missing vm (vgic_get_irq vcpu intid) e);
    kept = enable_one-Kept me vcpu;
  }

  pub disable_one-IsCellWrite :
      (vcpu : ℕ) → IsCellWrite (disable_one dev vcpu) vcpu (λ irq. record irq { enabled = 0 })
  unfolding disable_one vgic_irq_disable
  disable_one-IsCellWrite vcpu = record {
    there = λ intid vm irq e. (
      vgic_irq_disable dev intid
          (put_irq vm (vgic_get_irq vcpu intid) (record irq { enabled = 0 })),
      rw (read_irq-there vm (vgic_get_irq vcpu intid) e),
      λ j. rw (same_ref-vgic_get_irq vcpu j intid),
    );
    missing = λ intid vm e. rw (read_irq-missing vm (vgic_get_irq vcpu intid) e);
    kept = disable_one-Kept vcpu;
  }

  vgic_set_target-cell : (intid b : ℕ) (vm : Vm) → (vgic_set_target dev intid b vm).cell ≡ vm.cell
  unfolding vgic_set_target
  vgic_set_target-cell intid b vm = ground arith

  pub target_one-IsCellWrite :
      (vcpu b : ℕ) → IsCellWrite (target_one dev vcpu b) vcpu (λ irq. record irq { target = b })
  unfolding target_one
  target_one-IsCellWrite vcpu b = record {
    there = λ intid vm irq e.
        let put : Vm = put_irq vm (vgic_get_irq vcpu intid) (record irq { target = b }) in
        (
          vgic_set_target dev intid b put,
          rw (read_irq-there vm (vgic_get_irq vcpu intid) e) refl,
          λ j. rw (vgic_set_target-cell intid b put, same_ref-vgic_get_irq vcpu j intid) refl,
        );
    missing = λ intid vm e. rw (read_irq-missing vm (vgic_get_irq vcpu intid) e);
    kept = target_one-Kept vcpu b;
  }

priority_one-Kept :
    (vcpu b intid : ℕ) (vm vm' : Vm) → priority_one vcpu b intid vm ≡ ok vm' → Kept vm vm'
unfolding priority_one read_irq
priority_one-Kept vcpu b intid vm vm' e = (ground arith, ground arith, ground arith)

pub priority_one-IsCellWrite :
    (vcpu b : ℕ) → IsCellWrite (priority_one vcpu b) vcpu (λ irq. record irq { priority = b })
unfolding priority_one
priority_one-IsCellWrite vcpu b = record {
  there = λ intid vm irq e. (
    put_irq vm (vgic_get_irq vcpu intid) (record irq { priority = b }),
    rw (read_irq-there vm (vgic_get_irq vcpu intid) e),
    λ j. rw (same_ref-vgic_get_irq vcpu j intid),
  );
  missing = λ intid vm e. rw (read_irq-missing vm (vgic_get_irq vcpu intid) e);
  kept = priority_one-Kept vcpu b;
}
