-- ===== src/Vcpu/Table.antt =====
-- The table of virtual processors as `new_vcpu` fills it, and what `enter_vcpu` finds there.
use mvmm.Base.{
  ℕ, zero, suc, ◌+◌, ◌<◌, ◌≡◌, true, false, List, [], ◌∷◌, some, ok, arith, refl, ap, get_elem?,
  length, ◌∙◌, ==-true, ◌==◌, ◌≢◌, All, Bool-cases, inl, inr,
}
use mvmm.Spinlock.{spinlock_init, acquire, release}
use mvmm.Gic.{Interface, gic_restore_state}
use mvmm.Vgic.Cpu.{VgicCpu, VgicCpus, find_free, update_cpu, allocvgic_cpu, init_cpu, new_vgic_cpu}
use mvmm.Vcpu.{
  Vcpu, Vcpus, ready, running, is_unused, is_ready, find_unused, update_at, create, allocvcpu,
  init_vcpu, fill, new_vcpu, vcpu_ready, switch_vcpu, enter_vcpu, Hw, Sys, restore_sysreg,
  save_sysreg, vmid, drop_guest, tlb_flush, load_vcpu,
}

-- From number `i` on, `k` entries are in use under their own numbers, and the rest are unused.
abbrev pub IsFilled : ℕ → ℕ → List Vcpu → Type 0
IsFilled i k [] = k ≡ 0
IsFilled i zero (v ∷ vs) = (is_unused v.state ≡ true) × IsFilled (i + 1) zero vs
IsFilled i (suc k) (v ∷ vs) = (is_unused v.state ≡ false) × (v.cpuid ≡ i) × IsFilled (i + 1) k vs

-- The first `k` structs for list registers are in use, the rest are free.
abbrev pub IsTaken : ℕ → List VgicCpu → Type 0
IsTaken k [] = k ≡ 0
IsTaken zero (v ∷ vs) = (v.used ≡ 0) × IsTaken zero vs
IsTaken (suc k) (v ∷ vs) = (v.used ≡ 1) × IsTaken k vs

find_unused-IsFilled :
    (k i : ℕ) (vs : List Vcpu) → IsFilled i k vs → k < length vs → find_unused i vs ≡ some (i + k)
unfolding find_unused
find_unused-IsFilled k i [] filled lt = absurd (omega arith)
find_unused-IsFilled zero i (v ∷ vs) filled lt = rw filled.0 (ap some (omega arith))
find_unused-IsFilled (suc k) i (v ∷ vs) filled lt =
    rw (filled.0, find_unused-IsFilled k (i + 1) vs filled.2 (omega arith)) (ap some (omega arith))

find_free-IsTaken :
    (k i : ℕ) (vs : List VgicCpu) → IsTaken k vs → k < length vs → find_free i vs ≡ some (i + k)
unfolding find_free
find_free-IsTaken k i [] taken lt = absurd (omega arith)
find_free-IsTaken zero i (v ∷ vs) taken lt = rw taken.0 (ap some (omega arith))
find_free-IsTaken (suc k) i (v ∷ vs) taken lt =
    rw (taken.0, find_free-IsTaken k (i + 1) vs taken.1 (omega arith)) (ap some (omega arith))

-- The two writes to the entry that `new_vcpu` took.
fill-IsFilled :
    (f : Vcpu → Vcpu) (k i : ℕ) (vs : List Vcpu)
    → ((v : Vcpu) → (is_unused (f (create v)).state ≡ false) × ((f (create v)).cpuid ≡ i + k))
    → IsFilled i k vs
    → k < length vs
    → IsFilled i (suc k) (update_at k f (update_at k create vs))
unfolding update_at
fill-IsFilled f k i [] one filled lt = absurd (omega arith)
fill-IsFilled f zero i (v ∷ vs) one filled lt = ((one v).0, (one v).1 ∙ omega arith, filled.1)
fill-IsFilled f (suc k) i (v ∷ vs) one filled lt = (
  filled.0,
  filled.1,
  fill-IsFilled f k (i + 1) vs (λ u. ((one u).0, (one u).1 ∙ omega arith)) filled.2 (omega arith),
)

take-IsTaken :
    (vcpuid k : ℕ) (vs : List VgicCpu)
    → IsTaken k vs
    → k < length vs
    → IsTaken
        (suc k)
        (update_cpu k (init_cpu vcpuid) (update_cpu k (λ v. record v { used = 1 }) vs))
unfolding update_cpu init_cpu
take-IsTaken vcpuid k [] taken lt = absurd (omega arith)
take-IsTaken vcpuid zero (v ∷ vs) taken lt = (refl, taken.1)
take-IsTaken vcpuid (suc k) (v ∷ vs) taken lt =
    (taken.0, take-IsTaken vcpuid k vs taken.1 (omega arith))

-- Both tables at rest, with `k` entries in use.
pub record IsReady (k : ℕ) (s : Vcpus) (g : VgicCpus) : Type 0 where
  pub vcpus_unlocked : s.lock ≡ spinlock_init
  pub vgics_unlocked : g.lock ≡ spinlock_init
  pub filled : IsFilled 0 k s.table
  pub taken : IsTaken k g.table

allocvcpu-some :
    (me k : ℕ) (s : Vcpus)
    → s.lock ≡ spinlock_init
    → find_unused 0 s.table ≡ some k
    → allocvcpu me s
      ≡ ok (some k, record { table = update_at k create s.table; lock = spinlock_init })
unfolding allocvcpu acquire release
allocvcpu-some me k s free found = rw (free, found, ==-true {a = me} {b = me} refl)

new_vgic_cpu-some :
    (me vcpuid k : ℕ) (g : VgicCpus)
    → g.lock ≡ spinlock_init
    → find_free 0 g.table ≡ some k
    → new_vgic_cpu me vcpuid g
      ≡ ok (
        k,
        record {
          table =
              update_cpu k (init_cpu vcpuid) (update_cpu k (λ v. record v { used = 1 }) g.table);
          lock = spinlock_init;
        },
      )
unfolding new_vgic_cpu allocvgic_cpu acquire release
new_vgic_cpu-some me vcpuid k g free found = rw (free, found, ==-true {a = me} {b = me} refl)

length-update_at :
    (f : Vcpu → Vcpu) (n : ℕ) (vs : List Vcpu) → length (update_at n f vs) ≡ length vs
unfolding update_at
length-update_at f n [] = refl
length-update_at f zero (v ∷ vs) = refl
length-update_at f (suc n) (v ∷ vs) = ap suc (length-update_at f n vs)

length-update_cpu :
    (f : VgicCpu → VgicCpu) (n : ℕ) (vs : List VgicCpu) → length (update_cpu n f vs) ≡ length vs
unfolding update_cpu
length-update_cpu f n [] = refl
length-update_cpu f zero (v ∷ vs) = refl
length-update_cpu f (suc n) (v ∷ vs) = ap suc (length-update_cpu f n vs)

-- With both tables at rest, `k` entries in use and room for one more in each, `new_vcpu` for number `k`
-- succeeds and takes entry `k`: the number of a virtual processor is its place in the table.
pub new_vcpu-IsReady :
    (me pfr0 vmcr fdt k entry : ℕ) (s : Vcpus) (g : VgicCpus)
    → IsReady k s g
    → k < length s.table
    → k < length g.table
    → (s' : Vcpus) × (g' : VgicCpus) × (new_vcpu me pfr0 vmcr fdt k entry (s, g) ≡ ok (k, s', g'))
      × IsReady (suc k) s' g'
      × (length s'.table ≡ length s.table)
      × (length g'.table ≡ length g.table)
unfolding new_vcpu fill init_vcpu is_unused
new_vcpu-IsReady me pfr0 vmcr fdt k entry s g r room room' =
    let found : find_unused 0 s.table ≡ some k =
      find_unused-IsFilled k 0 s.table r.filled room ∙ ap some (omega arith) in
    let found' : find_free 0 g.table ≡ some k =
      find_free-IsTaken k 0 g.table r.taken room' ∙ ap some (omega arith) in
    let f = fill pfr0 vmcr fdt k entry k in
    (
      record { table = update_at k f (update_at k create s.table); lock = spinlock_init },
      record {
        table = update_cpu k (init_cpu k) (update_cpu k (λ v. record v { used = 1 }) g.table);
        lock = spinlock_init;
      },
      rw (
        allocvcpu-some me k s r.vcpus_unlocked found,
        new_vgic_cpu-some me k k g r.vgics_unlocked found',
      ),
      record {
        vcpus_unlocked = refl;
        vgics_unlocked = refl;
        filled = fill-IsFilled f k 0 s.table (λ v. (refl, omega arith)) r.filled room;
        taken = take-IsTaken k k g.table r.taken room';
      },
      length-update_at f k (update_at k create s.table) ∙ length-update_at create k s.table,
      length-update_cpu (init_cpu k) k (update_cpu k (λ v. record v { used = 1 }) g.table)
          ∙ length-update_cpu (λ v. record v { used = 1 }) k g.table,
    )

-- Entry `n` of a filled table is in use under its own number.
pub filled_entry :
    (k i n : ℕ) (vs : List Vcpu)
    → IsFilled i k vs
    → n < k
    → (v : Vcpu) × (get_elem? vs n ≡ some v) × (v.cpuid ≡ i + n)
filled_entry k i n [] filled lt = absurd (omega arith)
filled_entry zero i n (v ∷ vs) filled lt = absurd (omega arith)
filled_entry (suc k) i zero (v ∷ vs) filled lt = (v, refl, filled.1 ∙ omega arith)
filled_entry (suc k) i (suc n) (v ∷ vs) filled lt =
    let (u, at, e) = filled_entry k (i + 1) n vs filled.2 (omega arith) in (u, at, e ∙ omega arith)

pub get_elem?-update_at :
    (f : Vcpu → Vcpu) (n : ℕ) (vs : List Vcpu) {v : Vcpu}
    → get_elem? vs n ≡ some v
    → get_elem? (update_at n f vs) n ≡ some (f v)
unfolding update_at
get_elem?-update_at f n [] at = cc
get_elem?-update_at f zero (v ∷ vs) at = ground (arith, at)
get_elem?-update_at f (suc n) (v ∷ vs) at = get_elem?-update_at f n vs at

-- The processor runs the entry `n`, with its EL1 registers and its identity, on the tables at `vttbr`, of
-- which no translation is left over.
pub record Loaded (vttbr n : ℕ) (sys : Sys) (hw : Hw) : Type 0 where
  pub current : hw.tpidr_el2 ≡ n
  pub tables : hw.vttbr_el2 ≡ vttbr
  pub fresh : All (λ t. vmid t ≢ vmid vttbr) hw.tlb
  pub identity : (hw.vmpidr_el2 ≡ sys.mpidr_el1) × (hw.vpidr_el2 ≡ sys.midr_el1)
  pub registers : hw.sys ≡ record sys { mpidr_el1 = hw.sys.mpidr_el1; midr_el1 = hw.sys.midr_el1 }

drop_guest-All : (guest : ℕ) (ts : List ℕ) → All (λ t. vmid t ≢ guest) (drop_guest guest ts)
unfolding drop_guest
drop_guest-All guest [] = tt
drop_guest-All guest (t ∷ ts) = elim (Bool-cases (vmid t == guest)) [
  | inl e ↦ rw e (drop_guest-All guest ts)
  | inr ne ↦ rw ne (ground arith, drop_guest-All guest ts)
]

load_vcpu-Loaded :
    (vttbr n : ℕ) (sys : Sys) (hw : Hw) → Loaded vttbr n sys (load_vcpu vttbr n sys hw)
unfolding load_vcpu restore_sysreg tlb_flush
load_vcpu-Loaded vttbr n sys hw = record {
  current = refl;
  tables = refl;
  fresh = drop_guest-All (vmid vttbr) hw.tlb;
  identity = (refl, refl);
  registers = refl;
}

-- A ready entry under its own number is entered.
enter_vcpu-found :
    (lr_max vttbr n : ℕ) (s : Vcpus) (hw : Hw) (ich : Interface) (v : Vcpu)
    → get_elem? s.table n ≡ some v
    → is_ready v.state ≡ true
    → v.cpuid ≡ n
    → (s' : Vcpus) × (enter_vcpu lr_max vttbr n s hw ich
        ≡ ok (s', load_vcpu vttbr n v.sys hw, gic_restore_state lr_max v.gic ich))
      × (v' : Vcpu) × (get_elem? s'.table n ≡ some v')
      × (v'.state ≡ running)
unfolding enter_vcpu switch_vcpu
enter_vcpu-found lr_max vttbr n s hw ich v at is number =
    let hw' = load_vcpu vttbr n v.sys hw in
    let f = λ (u : Vcpu). record u { state = running; sys = save_sysreg hw' u.sys } in
    (
      record s { table = update_at n f s.table },
      ground (arith, at, is, number),
      f v,
      get_elem?-update_at f n s.table at,
      refl,
    )

-- With `k` entries in use, a processor `n` below `k` whose entry was made ready enters it: `enter_vcpu`
-- succeeds, the entry is running, and the processor has the registers of the entry and the tables `vttbr`.
pub enter_vcpu-ready :
    (lr_max vttbr k n : ℕ) (s : Vcpus) (g : VgicCpus) (hw : Hw) (ich : Interface)
    → IsReady k s g
    → n < k
    → (v v' : Vcpu) × (s' : Vcpus) × (hw' : Hw) × (get_elem? s.table n ≡ some v)
      × (enter_vcpu lr_max vttbr n (vcpu_ready n s) hw ich
          ≡ ok (s', hw', gic_restore_state lr_max v.gic ich))
      × (get_elem? s'.table n ≡ some v')
      × (v'.state ≡ running)
      × Loaded vttbr n v.sys hw'
unfolding vcpu_ready is_ready load_vcpu restore_sysreg tlb_flush
enter_vcpu-ready lr_max vttbr k n s g hw ich r lt =
    let (v, at, number) = filled_entry k 0 n s.table r.filled lt in
    let (s', ran, v', at', state') =
      enter_vcpu-found lr_max vttbr n (vcpu_ready n s) hw ich (record v { state = ready })
        (get_elem?-update_at (λ u. record u { state = ready }) n s.table at) refl
        (number ∙ omega arith) in
    (v, v', s', load_vcpu vttbr n v.sys hw, at, ran, at', state', load_vcpu-Loaded vttbr n v.sys hw)
