-- ===== src/Kalloc.antt =====
-- src/kalloc.c: the free list of physical pages, threaded through the pages themselves.
pub mod Pool
pub mod Boot
use mvmm.Base.{ℕ, zero, suc, ◌+◌, ◌*◌, ◌==◌, ltb, if◌then◌else◌, Outcome, ok, ◌>>=◌}
use mvmm.Memory.{Mem, load64, store64}
use mvmm.CLib.{memset}
use mvmm.Spinlock.{Spinlock, spinlock_init, acquire, release}

-- include/mm.h
abbrev pub page_size : ℕ
page_size = 4096

-- include/memmap.h
abbrev pub phy_end : ℕ
phy_end = 0x40000000 + 512 * 1024 * 1024

-- `pmem` and the memory that its pages are in.
pub record Pmem : Type 0 where
  pub mem : Mem
  pub freelist : ℕ
  pub lock : Spinlock

-- On the early return the lock stays held, as in the source.
unfoldable pub kalloc : ℕ → Pmem → Outcome (ℕ × Pmem)
kalloc me s = do
  l ← acquire me s.lock
  let new = s.freelist
  if new == 0 then ok (0, record s { lock = l }) else (do
    let next = load64 s.mem new
    l' ← release me l
    ok (new, record { mem = memset s.mem new 0 page_size; freelist = next; lock = l' }))

unfoldable pub kfree : ℕ → ℕ → Pmem → Outcome Pmem
kfree me p s = if p == 0 then ok s else (do
  let cleared = memset s.mem p 0 page_size
  l ← acquire me s.lock
  let linked = store64 cleared p s.freelist
  l' ← release me l
  ok (record { mem = linked; freelist = p; lock = l' }))

-- `for(u64 s = (u64)vmm_end; s < PHYEND; s += PAGESIZE) kfree((void *)s);` with as many rounds as
-- the fuel allows.
init_loop : ℕ → ℕ → ℕ → Pmem → Outcome Pmem
init_loop me zero p s = ok s
init_loop me (suc fuel) p s =
    let round = (kfree me p s >>= λ s'. init_loop me fuel (p + page_size) s') in
    if ltb p phy_end then round else ok s

-- `spinlock_init` and the loop; the argument is the address of `vmm_end`.
pub kalloc_init : ℕ → ℕ → ℕ → Pmem → Outcome Pmem
unfolding init_loop
kalloc_init me fuel vmm_end s = init_loop me fuel vmm_end (record s { lock = spinlock_init })
