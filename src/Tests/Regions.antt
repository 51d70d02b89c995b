-- ===== src/Tests/Regions.antt =====
-- One emulated region, and a second one registered beside it.
use mvmm.Base.{ℕ, ◌+◌, ◌≡◌, ok, arith, refl, true, ◌≢◌, [], ◌∷◌, some, none}
use mvmm.Spinlock.{spinlock_init}
use mvmm.Mmio.{Info, Mmio, find_slot, mmio_reg_handler, mmio_emulate}
use mvmm.Mmio.Dispatch.{Regions, Handled, mmio_emulate-Handled}
use mvmm.Mmio.Register.{mmio_reg_handler-Regions}

-- The handlers answer with the offset added to their state.
abbrev uart : Info ℕ ℕ
uart = record {
  next = none;
  base = 0x09000000;
  size = 0x1000;
  read = some (λ offset reg st. offset + st);
  write = none;
}

abbrev unused_info : Info ℕ ℕ
unused_info = record { next = none; base = 0; size = 0; read = none; write = none }

abbrev one_region : Mmio ℕ ℕ
one_region = record {
  infos = uart ∷ unused_info ∷ [];
  mi_lock = spinlock_init;
  pmap = some 0;
  vm_lock = spinlock_init;
}

one_region-Regions : Regions one_region.infos one_region.pmap (uart ∷ [])
one_region-Regions = (0, refl, refl, omega arith, refl)

mmio_emulate-Handled_example :
    (r : ℕ) × (mmio_emulate 1 999 one_region (λ n. n) 3 true 0x09000010 7 ≡ ok r)
    × (◌≡◌ {A = ℕ} 3 31 → Handled 999 true 0x09000010 none 0 7 (uart ∷ []) r)
    × (◌≢◌ {A = ℕ} 3 31 → Handled 999 true 0x09000010 (some 3) 3 7 (uart ∷ []) r)
mmio_emulate-Handled_example =
    mmio_emulate-Handled 1 999 one_region (uart ∷ []) (λ n. n) 3 true 0x09000010 7
      one_region-Regions (omega arith, tt) (omega arith)

one_region-free : find_slot 0 one_region.infos ≡ some 1
unfolding find_slot
one_region-free = refl

mmio_reg_handler-Regions_example :
    (s' : Mmio ℕ ℕ) × (m : Info ℕ ℕ) × (mmio_reg_handler 0 0x08000000 0x10000 none none one_region
      ≡ ok (some s'))
    × Regions s'.infos s'.pmap (m ∷ uart ∷ [])
    × (m.base ≡ 0x08000000)
    × (m.size ≡ 0x10000)
    × (m.read ≡ none)
    × (m.write ≡ none)
    × (s'.vm_lock ≡ spinlock_init)
    × (s'.mi_lock ≡ spinlock_init)
mmio_reg_handler-Regions_example =
    mmio_reg_handler-Regions 0 0x08000000 0x10000 1 none none one_region (uart ∷ []) refl refl
      (omega arith) one_region-free one_region-Regions
