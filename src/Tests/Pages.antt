-- ===== src/Tests/Pages.antt =====
-- The allocator and the byte blocks on the small memory.
use mvmm.Base.{ℕ, ◌+◌, ◌≤◌, ◌<◌, ◌≡◌, ok, panic, spin, arith, refl, [], ◌∷◌, length}
use mvmm.Spinlock.{spinlock_init}
use mvmm.Kalloc.{Pmem, page_size, kalloc, kfree, kalloc_init}
use mvmm.Kalloc.Pool.{IsPool, SameOutsidePage, kalloc-page, kfree-page, kalloc-empty}
use mvmm.Kalloc.Boot.{stack_up, kalloc_init-IsPool}
use mvmm.Tests.Data.{pool_mem, pool_state, pool_pages, pool_state-IsPool}

kalloc-page_example :
    (s' : Pmem) × (kalloc 0 pool_state ≡ ok (0x2000, s'))
    × IsPool s' (0x3000 ∷ 0x4000 ∷ [])
    × ((b : ℕ) → 0x2000 ≤ b → b < 0x2000 + page_size → s'.mem b ≡ 0)
    × SameOutsidePage 0x2000 pool_mem s'.mem
kalloc-page_example = kalloc-page 0 0x2000 (0x3000 ∷ 0x4000 ∷ []) pool_state-IsPool

kfree-page_example :
    (s' : Pmem) × (kfree 0 0x8000 pool_state ≡ ok s')
    × IsPool s' (0x8000 ∷ pool_pages)
    × SameOutsidePage 0x8000 pool_mem s'.mem
kfree-page_example =
    kfree-page 0 0x8000 pool_pages
      (record { aligned = refl; ne_null = omega arith; fits = omega arith })
      (omega arith, (omega arith, (omega arith, tt))) pool_state-IsPool

abbrev empty_state : Pmem
empty_state = record { mem = pool_mem; freelist = 0; lock = spinlock_init }

kalloc-empty_example :
    (s' : Pmem) × (kalloc 0 empty_state ≡ ok (0, s')) × (kalloc 0 s' ≡ panic) × (kalloc 1 s' ≡ spin)
kalloc-empty_example = kalloc-empty 0 1 (omega arith) (record { unlocked = refl; chain = refl })

-- Four pages lie between 0x5fffc000 and PHYEND.
kalloc_init-IsPool_example :
    (s' : Pmem) × (kalloc_init 0 5 0x5fffc000 empty_state ≡ ok s')
    × IsPool s' (stack_up 4 0x5fffc000 [])
    × (length (stack_up 4 0x5fffc000 []) ≡ 4)
kalloc_init-IsPool_example =
    kalloc_init-IsPool 0 4 5 0x5fffc000 empty_state (omega arith) refl refl (omega arith) refl
