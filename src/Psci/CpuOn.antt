-- ===== src/Psci/CpuOn.antt =====
-- The call that starts a virtual processor.
use mvmm.Base.{
  ℕ, zero, suc, ◌+◌, ◌%◌, ◌^◌, ◌<◌, ◌≤◌, ◌≡◌, ◌≢◌, List, [], ◌∷◌, some, ok, arith, refl, ap,
  get_elem?, ◌∙◌, false, ltb-true,
}
use mvmm.Vgic.Cpu.{VgicCpus}
use mvmm.Vcpu.{Vcpu, Vcpus, ready, is_unused, update_at, vcpu_ready}
use mvmm.Vcpu.Table.{IsFilled, IsReady, filled_entry, get_elem?-update_at}
use mvmm.Psci.{
  PsciCall, Firmware, VmVcpus, psci_system_cpuon, sign_extend, vpsci_cpu_on, vpsci_emulate,
}

-- A write that keeps the number of an entry and leaves it in use keeps the table filled.
update_at-IsFilled :
    (f : Vcpu → Vcpu) (k i n : ℕ) (vs : List Vcpu)
    → ((v : Vcpu) → is_unused v.state ≡ false → is_unused (f v).state ≡ false)
    → ((v : Vcpu) → (f v).cpuid ≡ v.cpuid)
    → IsFilled i k vs
    → n < k
    → IsFilled i k (update_at n f vs)
unfolding update_at
update_at-IsFilled f k i n [] use_kept same filled lt = filled
update_at-IsFilled f zero i n (v ∷ vs) use_kept same filled lt = absurd (omega arith)
update_at-IsFilled f (suc k) i zero (v ∷ vs) use_kept same filled lt =
    (use_kept v filled.0, same v ∙ filled.1, filled.2)
update_at-IsFilled f (suc k) i (suc n) (v ∷ vs) use_kept same filled lt =
    (filled.0, filled.1, update_at-IsFilled f k (i + 1) n vs use_kept same filled.2 (omega arith))

get_elem?-update_at_ne :
    (f : Vcpu → Vcpu) (n j : ℕ) (vs : List Vcpu)
    → j ≢ n
    → get_elem? (update_at n f vs) j ≡ get_elem? vs j
unfolding update_at
get_elem?-update_at_ne f n j [] ne = refl
get_elem?-update_at_ne f zero zero (v ∷ vs) ne = absurd (ne refl)
get_elem?-update_at_ne f zero (suc j) (v ∷ vs) ne = refl
get_elem?-update_at_ne f (suc n) zero (v ∷ vs) ne = refl
get_elem?-update_at_ne f (suc n) (suc j) (v ∷ vs) ne =
    get_elem?-update_at_ne f n j vs (λ e. ne (ap (λ (x : ℕ). suc x) e))

-- In a machine whose `nvcpu` virtual processors are the first entries of the table, CPU_ON for one of
-- them returns what the firmware answers; it makes that entry ready at the entry point given and
-- changes no other.
pub vpsci_emulate-cpuon :
    (call : Firmware) (start k : ℕ) (vm : VmVcpus) (c : PsciCall) (s : Vcpus) (g : VgicCpus)
    → IsReady k s g
    → vm.nvcpu ≤ k
    → get_elem? vm.vcpus c.x1 ≡ some c.x1
    → c.funcid ≡ psci_system_cpuon
    → c.x1 < vm.nvcpu
    → (s' : Vcpus) × (vpsci_emulate call start vm c s
        ≡ ok (some (sign_extend (call psci_system_cpuon c.x1 start 0)), s'))
      × IsReady k s' g
      × ((v : Vcpu) × (get_elem? s'.table c.x1 ≡ some v) × (v.elr ≡ c.x2) × (v.state ≡ ready))
      × ((j : ℕ) → j ≢ c.x1 → get_elem? s'.table j ≡ get_elem? s.table j)
unfolding vpsci_emulate vpsci_cpu_on vcpu_ready is_unused
vpsci_emulate-cpuon call start k vm c s g r le own e lt =
    let n : ℕ = c.x1 in
    let f = λ (v : Vcpu). record v { elr = c.x2 } in
    let h = λ (v : Vcpu). record v { state = ready } in
    let (v, at, number) = filled_entry k 0 n s.table r.filled (omega arith) in
    let at1 = get_elem?-update_at f n s.table at in
    let below : n < k = omega arith in
    let word : ℕ = call psci_system_cpuon n start 0 in
    let twice : word % 2 ^ 32 % 2 ^ 32 ≡ word % 2 ^ 32 = omega arith in
    (
      vcpu_ready n (record s { table = update_at n f s.table }),
      ground (arith, e, own, ltb-true lt, twice),
      record {
        vcpus_unlocked = r.vcpus_unlocked;
        vgics_unlocked = r.vgics_unlocked;
        filled =
            update_at-IsFilled h k 0 n (update_at n f s.table) (λ u busy. refl) (λ u. refl)
              (update_at-IsFilled f k 0 n s.table (λ u busy. busy) (λ u. refl) r.filled below)
              below;
        taken = r.taken;
      },
      (h (f v), get_elem?-update_at h n (update_at n f s.table) at1, refl, refl),
      λ j ne.
          get_elem?-update_at_ne h n j (update_at n f s.table) ne
          ∙ get_elem?-update_at_ne f n j s.table ne,
    )
