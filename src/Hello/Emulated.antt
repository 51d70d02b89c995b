-- ===== src/Hello/Emulated.antt =====
-- The interrupt controller that the guest program finds: the registers that src/vgic.c emulates, behind the
-- dispatch of src/mmio.c. The guest accesses them from and to one register, number 0.
use mvmm.Base.{
  ℕ, ◌+◌, ◌-◌, ◌%◌, ◌^◌, ◌<◌, ◌≡◌, true, false, [], ◌∷◌, Option, none, some, Outcome, ok, panic,
  fault, ◌>>=◌, arith, refl,
}
use mvmm.Spinlock.{spinlock_init}
use mvmm.Gic.{Device, update}
use mvmm.Vgic.{Vm}
use mvmm.Vgic.Gicd.{vgicd_mmio_read, vgicd_mmio_write}
use mvmm.Vgic.Gicr.{vgicr_mmio_read, vgicr_mmio_write}
use mvmm.Mmio.{Info, Mmio, covers, call_handler, walk_infos, mmio_emulate}
use mvmm.Hello.Gic.{Bus}

-- What a handler acts on, the virtual machine and the registers of the guest, and its result.
abbrev pub GuestView : Type 0
GuestView = Vm × (ℕ → ℕ)

abbrev pub Reply : Type 0
Reply = Outcome (Option GuestView)

-- `*val = v;`, a write through a null pointer where the access names register 31.
abbrev answer : Option ℕ → Option ℕ → GuestView → Reply
answer none reg s = ok none
answer (some v) none s = fault
answer (some v) (some n) (vm, x) = ok (some (vm, update x n v))

abbrev written : Option Vm → (ℕ → ℕ) → Reply
written none x = ok none
written (some vm) x = ok (some (vm, x))

-- The abort of an access whose handler returns -1 ends in a panic.
abbrev served : Option GuestView → Outcome GuestView
served none = panic
served (some a) = ok a

module _ (dev : Device) (me vcpu : ℕ) where
  -- The two regions of `new_vgic`, as its calls of `pagetrap` register them.
  abbrev gicd_info : Info GuestView Reply
  gicd_info = record {
    next = none;
    base = 0x08000000;
    size = 0x10000;
    read = some (λ off reg (vm, x). do
      (v, vm') ← vgicd_mmio_read dev me vcpu off vm
      answer v reg (vm', x));
    write = some (λ off val (vm, x). do r ← vgicd_mmio_write dev me vcpu off val vm; written r x);
  }

  abbrev gicr_info : Info GuestView Reply
  gicr_info = record {
    next = some 0;
    base = 0x080a0000;
    size = 0xf60000;
    read = some (λ off reg (vm, x). do v ← vgicr_mmio_read dev off false vm; answer v reg (vm, x));
    write = some (λ off val (vm, x). do r ← vgicr_mmio_write dev me off val vm; written r x);
  }

  abbrev vgic_regions : Mmio GuestView Reply
  vgic_regions = record {
    infos = gicd_info ∷ gicr_info ∷ [];
    mi_lock = spinlock_init;
    pmap = some 1;
    vm_lock = spinlock_init;
  }

  -- Two regions, so a walk of two rounds.
  unfoldable pub emulated_load : ℕ → Vm → Outcome (ℕ × Vm)
  emulated_load a vm = do
    r ← mmio_emulate 2 (ok none) vgic_regions (λ n. 0) 0 false a (vm, λ n. 0)
    reply ← r
    (vm', x) ← served reply
    ok (x 0 % 2 ^ 32, vm')

  unfoldable pub emulated_store : ℕ → ℕ → Vm → Outcome Vm
  emulated_store a val vm = do
    r ← mmio_emulate 2 (ok none) vgic_regions (λ n. val) 0 true a (vm, λ n. val)
    reply ← r
    (vm', x) ← served reply
    ok vm'

  abbrev pub emulated : Bus Vm
  emulated = record { load = emulated_load; store = emulated_store }

  -- An access of the distributor goes to its handlers.
  module _ (off : ℕ) (lt : off < 0x10000) where
    at_offset : 0x08000000 + off - 0x08000000 ≡ off
    at_offset = omega arith

    in_gicd : covers gicd_info (0x08000000 + off) ≡ true
    in_gicd = ground arith

    past_gicr : covers gicr_info (0x08000000 + off) ≡ false
    past_gicr = ground arith

    pub emulated_load-gicd :
        (v : ℕ) (vm vm' : Vm)
        → v < 2 ^ 32
        → vgicd_mmio_read dev me vcpu off vm ≡ ok (some v, vm')
        → emulated_load (0x08000000 + off) vm ≡ ok (v, vm')
    unfolding emulated_load mmio_emulate walk_infos call_handler
    emulated_load-gicd v vm vm' small e =
        let whole : v % 2 ^ 32 ≡ v = omega arith in
        rw (past_gicr, in_gicd, at_offset, e) (rw whole refl)

    pub emulated_store-gicd :
        (val : ℕ) (vm vm' : Vm)
        → vgicd_mmio_write dev me vcpu off val vm ≡ ok (some vm')
        → emulated_store (0x08000000 + off) val vm ≡ ok vm'
    unfolding emulated_store mmio_emulate walk_infos call_handler
    emulated_store-gicd val vm vm' e = rw (past_gicr, in_gicd, at_offset, e) refl

  -- An access of the first redistributor goes to theirs.
  module _ (off : ℕ) (lt : off < 0x20000) where
    at_place : 0x080a0000 + off - 0x080a0000 ≡ off
    at_place = omega arith

    in_gicr : covers gicr_info (0x080a0000 + off) ≡ true
    in_gicr = ground arith

    pub emulated_load-gicr :
        (v : ℕ) (vm : Vm)
        → v < 2 ^ 32
        → vgicr_mmio_read dev off false vm ≡ ok (some v)
        → emulated_load (0x080a0000 + off) vm ≡ ok (v, vm)
    unfolding emulated_load mmio_emulate walk_infos call_handler
    emulated_load-gicr v vm small e =
        let whole : v % 2 ^ 32 ≡ v = omega arith in rw (in_gicr, at_place, e) (rw whole refl)

    pub emulated_store-gicr :
        (val : ℕ) (vm vm' : Vm)
        → vgicr_mmio_write dev me off val vm ≡ ok (some vm')
        → emulated_store (0x080a0000 + off) val vm ≡ ok vm'
    unfolding emulated_store mmio_emulate walk_infos call_handler
    emulated_store-gicr val vm vm' e = rw (in_gicr, at_place, e) refl
