-- ===== src/CreateVm/Processors.antt =====
-- The virtual processors of a new guest.
use mvmm.Base.{ℕ, zero, suc, ◌+◌, ◌-◌, ◌≤◌, ◌≡◌, List, [], ◌∷◌, length, ok, arith, refl, subst}
use mvmm.Vgic.Cpu.{VgicCpus}
use mvmm.Vcpu.{Vcpus}
use mvmm.Vcpu.Table.{IsReady, new_vcpu-IsReady}
use mvmm.CreateVm.{new_vcpus, vm_vcpus}

-- The numbers from `i` on.
abbrev pub places : ℕ → ℕ → List ℕ
places zero i = []
places (suc n) i = i ∷ places n (i + 1)

new_vcpus-IsReady :
    (me pfr0 vmcr fdt left k : ℕ) (s : Vcpus) (g : VgicCpus)
    → IsReady k s g
    → k + left ≤ length s.table
    → k + left ≤ length g.table
    → (s' : Vcpus) × (g' : VgicCpus) × (new_vcpus me pfr0 vmcr fdt left k (s, g)
        ≡ ok (places left k, s', g'))
      × IsReady (k + left) s' g'
unfolding new_vcpus
new_vcpus-IsReady me pfr0 vmcr fdt zero k s g r room room' =
    let none_left : k ≡ k + 0 = omega arith in (s, g, refl, subst (λ n. IsReady n s g) none_left r)
new_vcpus-IsReady me pfr0 vmcr fdt (suc left) k s g r room room' =
    let (s1, g1, ran, r1, len, len') =
      new_vcpu-IsReady me pfr0 vmcr fdt k 0 s g r (omega arith) (omega arith) in
    let next : suc k ≡ k + 1 = omega arith in
    let all : k + 1 + left ≡ k + suc left = omega arith in
    let (s', g', ran', r') =
      new_vcpus-IsReady me pfr0 vmcr fdt left (k + 1) s1 g1 (subst (λ n. IsReady n s1 g1) next r1)
        (omega arith) (omega arith) in
    (s', g', rw (ran, ran') refl, subst (λ n. IsReady n s' g') all r')

-- With nothing in use and room in both tables, `create_vm` makes all virtual processors of the guest: number
-- `n` is in place `n` of the table, and exactly those places are in use.
pub vm_vcpus-IsReady :
    (me pfr0 vmcr fdt nvcpu entry : ℕ) (s : Vcpus) (g : VgicCpus)
    → IsReady 0 s g
    → 1 ≤ nvcpu
    → nvcpu ≤ length s.table
    → nvcpu ≤ length g.table
    → (s' : Vcpus) × (g' : VgicCpus) × (vm_vcpus me pfr0 vmcr fdt nvcpu entry (s, g)
        ≡ ok (places nvcpu 0, s', g'))
      × IsReady nvcpu s' g'
unfolding vm_vcpus
vm_vcpus-IsReady me pfr0 vmcr fdt zero entry s g r some_one room room' = absurd (omega arith)
vm_vcpus-IsReady me pfr0 vmcr fdt (suc more) entry s g r some_one room room' =
    let (s1, g1, ran, r1, len, len') =
      new_vcpu-IsReady me pfr0 vmcr fdt 0 entry s g r (omega arith) (omega arith) in
    let (s', g', ran', r') =
      new_vcpus-IsReady me pfr0 vmcr fdt more 1 s1 g1 r1 (omega arith) (omega arith) in
    let all : 1 + more ≡ suc more = omega arith in
    let rest : suc more - 1 ≡ more = omega arith in
    (s', g', rw (ran, rest, ran') refl, subst (λ n. IsReady n s' g') all r')
