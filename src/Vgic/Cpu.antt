-- ===== src/Vgic/Cpu.antt =====
-- `struct vgic_cpu` of include/vgic.h and src/vgic.c: the structs of the virtual processors' interrupts, and how one is taken.
use mvmm.Base.{
  ℕ, zero, suc, ◌+◌, ◌^◌, ◌%◌, ◌==◌, ltb, if◌then◌else◌, List, [], ◌∷◌, Option, none, some, Outcome,
  ok, fault, ◌>>=◌,
}
use mvmm.Spinlock.{Spinlock, acquire, release}
use mvmm.Vgic.{VgicIrq}

pub record VgicCpu : Type 0 where
  pub used : ℕ
  pub used_lr : ℕ
  pub sgis : ℕ → VgicIrq
  pub ppis : ℕ → VgicIrq

-- `vgic_cpus`, of VCPU_MAX entries, and its lock.
pub record VgicCpus : Type 0 where
  pub table : List VgicCpu
  pub lock : Spinlock

unfoldable pub find_free : ℕ → List VgicCpu → Option ℕ
find_free i [] = none
find_free i (v ∷ vs) = if v.used == 0 then some i else find_free (i + 1) vs

unfoldable pub update_cpu : ℕ → (VgicCpu → VgicCpu) → List VgicCpu → List VgicCpu
update_cpu n f [] = []
update_cpu zero f (v ∷ vs) = f v ∷ vs
update_cpu (suc n) f (v ∷ vs) = v ∷ update_cpu n f vs

unfoldable pub allocvgic_cpu : ℕ → VgicCpus → Outcome (Option ℕ × VgicCpus)
allocvgic_cpu me g = do
  l ← acquire me g.lock
  l' ← release me l
  ok (elim (find_free 0 g.table) [
    | none ↦ (none, record g { lock = l' })
    | some n ↦
        (some n, record { table = update_cpu n (λ v. record v { used = 1 }) g.table; lock = l' })
  ])

-- The assignments of `new_vgic_cpu`; `target` is a `u8`.
unfoldable pub init_cpu : ℕ → VgicCpu → VgicCpu
init_cpu vcpuid v = record v {
  used_lr = 0;
  sgis = λ i.
      if ltb i 16 then record (v.sgis i) { enabled = 1; target = 2 ^ vcpuid % 256 } else v.sgis i;
  ppis = λ i.
      if ltb i 16 then record (v.ppis i) { enabled = 0; target = 2 ^ vcpuid % 256 } else v.ppis i;
}

-- The result of `allocvgic_cpu` is used without a test for null.
unfoldable pub new_vgic_cpu : ℕ → ℕ → VgicCpus → Outcome (ℕ × VgicCpus)
new_vgic_cpu me vcpuid g = do
  (found, g1) ← allocvgic_cpu me g
  n ← elim found [ none ↦ fault | some n ↦ ok n ]
  ok (n, record g1 { table = update_cpu n (init_cpu vcpuid) g1.table })
