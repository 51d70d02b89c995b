-- ===== src/Trap/Host.antt =====
-- src/trap.c: exceptions and interrupts that are taken from the hypervisor itself.
use mvmm.Base.{
  ℕ, ◌^◌, ◌%◌, ◌<◌, ◌≡◌, ◌≢◌, bit_and, ◌==◌, ==-false, if◌then◌else◌, false, Option, none, some,
  List, [], ◌∷◌, length, Outcome, ok, panic, ◌>>=◌, refl,
}
use mvmm.Base.Bits.{bit_and-mask}
use mvmm.Uart.{Serial, mis, uartintr}
use mvmm.Uart.Fifo.{IsPort, uartintr-empties}
use mvmm.Vcpu.{Sys, Hw, save_sysreg}
use mvmm.Trap.Interrupt.{Acks, gic_eoi, gic_deactive_irq, gic_host_eoi}

-- It prints the syndrome and stops the machine.
unfoldable pub hyp_sync_handler : {A : Type 0} → A → Outcome A
hyp_sync_handler s = panic

-- The end of interrupts, the serial port, and the saved registers of the current virtual processor, if any.
pub record Host (U : Type 0) : Type 0 where
  pub acks : Acks
  pub serial : U
  pub cur_vcpu : Option Sys

-- It saves the registers, and prints them.
unfoldable pub vcpu_dump : Hw → Option Sys → Option Sys
vcpu_dump hw none = none
vcpu_dump hw (some sys) = some (save_sysreg hw sys)

module _ {U : Type 0} (port : Serial U) (hw : Hw) where
  -- `iar` is what ICC_IAR1_EL1 reads.
  unfoldable pub hyp_irq_handler : ℕ → ℕ → Host U → Outcome (Host U)
  hyp_irq_handler fuel iar s =
      let irq : ℕ = bit_and iar 0x3ff in
      let served = (do
        (dumped, u) ← if irq == 33 then uartintr port fuel s.serial else ok (false, s.serial)
        a ← gic_host_eoi irq 1 s.acks
        let cur = if dumped then vcpu_dump hw s.cur_vcpu else s.cur_vcpu
        ok (record { acks = a; serial = u; cur_vcpu = cur })) in
      if irq == 1023 then ok s else served

-- The interrupt is ended and deactivated, once.
abbrev pub ended : ℕ → Acks → Acks
ended irq a = record { eoir = (1, irq) ∷ a.eoir; dir = irq ∷ a.dir }

-- The handler by the number of the interrupt, the low ten bits of what the register reads: 1023 is no interrupt,
-- and nothing is done; at 33, with its line raised and fuel for the characters received, the serial port is
-- emptied and the current virtual processor's registers are saved, and every other number leaves both alone; each is ended and deactivated once.
hyp_irq_handler-served :
    {U : Type 0} (port : Serial U) (received sent : U → List ℕ) (busy : U → ℕ) (hw : Hw)
    (fuel iar : ℕ) (s : Host U)
    → IsPort port received sent busy
    → length (received s.serial) < fuel
    → bit_and (port.read mis s.serial).0 (2 ^ 4) ≢ 0
    → (iar % 1024 ≡ 1023 → hyp_irq_handler port hw fuel iar s ≡ ok s)
      × (iar % 1024 ≡ 33
          → (s' : Host U) × (hyp_irq_handler port hw fuel iar s ≡ ok s')
            × (received s'.serial ≡ [])
            × (s'.acks ≡ ended 33 s.acks)
            × (s'.cur_vcpu ≡ vcpu_dump hw s.cur_vcpu))
      × (iar % 1024 ≢ 1023
          → iar % 1024 ≢ 33
          → hyp_irq_handler port hw fuel iar s ≡ ok (record s { acks = ended (iar % 1024) s.acks }))
unfolding hyp_irq_handler gic_host_eoi gic_eoi gic_deactive_irq
hyp_irq_handler-served port received sent busy hw fuel iar s p enough raised =
    let (u', ran, none_left) =
      uartintr-empties port received sent busy p fuel s.serial enough raised in
    (
      λ spurious. rw (bit_and-mask 10 iar, spurious) refl,
      λ serial. (
        record { acks = ended 33 s.acks; serial = u'; cur_vcpu = vcpu_dump hw s.cur_vcpu },
        rw (bit_and-mask 10 iar, serial, ran) refl,
        none_left,
        refl,
        refl,
      ),
      λ ne other. rw (bit_and-mask 10 iar, ==-false ne, ==-false other) refl,
    )
