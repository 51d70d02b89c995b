-- ===== src/Tests/Program.antt =====
-- The guest program on the emulated controller of Interrupts and the serial port of Ports.
use mvmm.Base.{some, ◌<◌, ◌≤◌, true, ℕ, ◌≡◌, ok, arith, refl}
use mvmm.Gic.{Device}
use mvmm.Vgic.{Vm, vgic_get_irq}
use mvmm.Hello.Bringup.{brought_up, gicv3_start-done}
use mvmm.Spinlock.{spinlock_init}
use mvmm.Hello.Gic.{gic_dist_init, gicv3_init_percpu, gicv3_addrs, gic_setup_spi}
use mvmm.Hello.Emulated.{emulated}
use mvmm.Hello.Bank.{OneChanged}
use mvmm.Hello.Setup.{gic_setup_spi-OneChanged}
use mvmm.Tests.Interrupts.{idle_irq, small_vm}

-- A controller whose registers read as 0.
abbrev silent : Device
silent = λ bus a. 0

gic_setup_spi-OneChanged_example :
    (vm' : Vm) × (gic_setup_spi (emulated silent 0 0) gicv3_addrs 33 0 small_vm ≡ ok vm')
    × OneChanged 0 33 (record idle_irq { priority = 0; target = 1; enabled = 1 }) small_vm vm'
gic_setup_spi-OneChanged_example =
    gic_setup_spi-OneChanged silent 0 0 33 (omega arith) 0 (λ j. idle_irq) small_vm
      (refl, λ j same. (refl, (omega arith, omega arith, omega arith)))

gicv3_start-done_example :
    (typer : ℕ) × (vm1 vm2 vm3 : Vm) × (gic_dist_init (emulated silent 0 0) gicv3_addrs small_vm
      ≡ ok (typer, vm1))
    × (gic_setup_spi (emulated silent 0 0) gicv3_addrs 33 0 vm1 ≡ ok vm2)
    × (gicv3_init_percpu
          (emulated silent 0 0)
          gicv3_addrs
          1
          (record { igrpen1 = 1; pmr = 0; sre = 6 })
          vm2
        ≡ ok (record { igrpen1 = 1; pmr = 0xff; sre = 7 }, vm3))
    × (vm3.enabled ≡ true)
    × (vm3.lock ≡ spinlock_init)
    × ((j : ℕ) → j < 64 → vm3.cell (vgic_get_irq 0 j) ≡ some (brought_up (λ k. idle_irq) j))
    × ((j : ℕ) → 64 ≤ j → vm3.cell (vgic_get_irq 0 j) ≡ small_vm.cell (vgic_get_irq 0 j))
gicv3_start-done_example =
    gicv3_start-done silent 0 0 (record { igrpen1 = 1; pmr = 0; sre = 6 }) (λ k. idle_irq) small_vm
      (omega arith) (omega arith) refl (λ j lt. (refl, (omega arith, omega arith, omega arith)))
