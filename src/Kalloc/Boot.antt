-- ===== src/Kalloc/Boot.antt =====
-- `kalloc_init`: the pool that the allocator starts with.
use mvmm.Base.{
  ℕ, zero, suc, ◌+◌, ◌*◌, ◌%◌, ◌<◌, ◌≡◌, ◌≢◌, arith, List, [], ◌∷◌, All, All-map, ok, ltb-true,
  ltb-false, length, refl,
}
use mvmm.Spinlock.{spinlock_init}
use mvmm.Kalloc.{Pmem, page_size, phy_end, init_loop, kalloc_init}
use mvmm.Kalloc.Pool.{IsPage, IsPool, kfree-page}

-- `n` pages from `p` upwards, each pushed in front of `ps`.
pub stack_up : ℕ → ℕ → List ℕ → List ℕ
stack_up zero p ps = ps
stack_up (suc n) p ps = stack_up n (p + page_size) (p ∷ ps)

pub length-stack_up : (n p : ℕ) (ps : List ℕ) → length (stack_up n p ps) ≡ n + length ps
unfolding stack_up
length-stack_up zero p ps = omega arith
length-stack_up (suc n) p ps = omega (arith, length-stack_up n (p + page_size) (p ∷ ps))

init_loop-IsPool :
    (me n fuel p : ℕ) (ps : List ℕ) {s : Pmem}
    → n < fuel
    → p + n * page_size ≡ phy_end
    → p % page_size ≡ 0
    → p ≢ 0
    → All (λ q. q < p) ps
    → IsPool s ps
    → (s' : Pmem) × (init_loop me fuel p s ≡ ok s') × IsPool s' (stack_up n p ps)
unfolding init_loop stack_up
init_loop-IsPool me n zero p ps lt end al ne below pool = absurd (omega arith)
init_loop-IsPool me zero (suc fuel) p ps {s} lt end al ne below pool =
    (s, rw (ltb-false {a = p} {b = phy_end} (omega arith)), pool)
init_loop-IsPool me (suc n) (suc fuel) p ps {s} lt end al ne below pool =
    let page : IsPage p = record { aligned = al; ne_null = ne; fits = omega arith } in
    let (s1, ran, pool1, same) =
      kfree-page me p ps page (All-map (λ q h. omega arith) ps below) pool in
    let (s2, ran2, pool2) =
      init_loop-IsPool me n fuel (p + page_size) (p ∷ ps) (omega arith) (omega arith) (omega arith)
        (omega arith) (omega arith, All-map (λ q h. omega arith) ps below) pool1 in
    (s2, rw (ltb-true {a = p} {b = phy_end} (omega arith), ran) ran2, pool2)

-- If the free list is empty before, as the cleared `pmem` has it, and `vmm_end` is page aligned, not null and `n` pages below PHYEND, then with fuel for more than `n`
-- rounds `kalloc_init` succeeds and leaves a pool of exactly those `n` pages, the highest first.
pub kalloc_init-IsPool :
    (me n fuel vmm_end : ℕ) (s : Pmem)
    → n < fuel
    → vmm_end + n * page_size ≡ phy_end
    → vmm_end % page_size ≡ 0
    → vmm_end ≢ 0
    → s.freelist ≡ 0
    → (s' : Pmem) × (kalloc_init me fuel vmm_end s ≡ ok s')
      × IsPool s' (stack_up n vmm_end [])
      × (length (stack_up n vmm_end []) ≡ n)
unfolding kalloc_init
kalloc_init-IsPool me n fuel vmm_end s lt end al ne empty =
    let (s', ran, pool) =
      init_loop-IsPool me n fuel vmm_end [] {s = record s { lock = spinlock_init }} lt end al ne tt
        (record { unlocked = refl; chain = empty }) in
    (s', ran, pool, omega (arith, length-stack_up n vmm_end []))
