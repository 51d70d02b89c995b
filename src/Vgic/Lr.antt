-- ===== src/Vgic/Lr.antt =====
-- The list registers that a virtual processor uses: `vgic_cpu_alloc_lr`, `vgic_inject_virq` and
-- `vgic_irq_enter` of src/vgic.c.
pub mod Laws
pub mod Ownership
use mvmm.Base.{
  ℕ, zero, suc, ◌-◌, ◌%◌, ◌^◌, bit_and, bit_or, Bool, ◌==◌, not, ◌&&◌, if◌then◌else◌, Option, none,
  some, Outcome, ok, panic, ◌>>=◌,
}
use mvmm.Gic.{Interface, gic_read_lr, gic_write_lr, gic_make_lr, lr_is_inactive}

-- `vgic_cpu.used_lr`, a `u16`, and the processor's list registers.
pub record LrState : Type 0 where
  pub used_lr : ℕ
  pub hw : Interface

-- The loop of `vgic_cpu_alloc_lr` from register `i` on, with the rounds left; `none` is -1.
unfoldable pub alloc_from : ℕ → ℕ → ℕ → Option ℕ × ℕ
alloc_from zero i used = (none, used)
alloc_from (suc left) i used =
    let rest = alloc_from left (suc i) used in
    if bit_and used (2 ^ i) == 0 then (some i, bit_or used (2 ^ i) % 2 ^ 16) else rest

unfoldable pub vgic_cpu_alloc_lr : ℕ → ℕ → Option ℕ × ℕ
vgic_cpu_alloc_lr lr_max used = alloc_from lr_max 0 used

inject_at : ℕ → ℕ → Option ℕ × ℕ → Interface → Outcome LrState
inject_at lr_max lr (none, used) hw = panic
inject_at lr_max lr (some n, used) hw = do
  hw' ← gic_write_lr lr_max n lr hw
  ok (record { used_lr = used; hw = hw' })

unfoldable pub vgic_inject_virq : ℕ → ℕ → ℕ → ℕ → LrState → Outcome LrState
unfolding inject_at
vgic_inject_virq lr_max pirq virq grp s =
    inject_at lr_max (gic_make_lr pirq virq grp) (vgic_cpu_alloc_lr lr_max s.used_lr) s.hw

-- The loop of `vgic_irq_enter` from register `i` on, with the rounds left.
unfoldable pub enter_from : ℕ → ℕ → ℕ → ℕ → Interface → Outcome ℕ
enter_from lr_max zero i used hw = ok used
enter_from lr_max (suc left) i used hw = do
  used' ← if bit_and used (2 ^ i) == 0 then ok used else (do
    lr ← gic_read_lr lr_max i hw
    ok (if lr_is_inactive lr then bit_and used (2 ^ 16 - 1 - 2 ^ i) else used))
  enter_from lr_max left (suc i) used' hw

unfoldable pub vgic_irq_enter : ℕ → LrState → Outcome LrState
vgic_irq_enter lr_max s = do
  used ← enter_from lr_max lr_max 0 s.used_lr s.hw
  ok (record s { used_lr = used })
