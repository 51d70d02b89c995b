-- ===== src/Tests/Memories.antt =====
-- A memory with an empty root table at 0x1000, an image of five bytes at 0x8000, and 516 free pages from
-- 0x200000 on.
use mvmm.Base.{
  ℕ, zero, suc, ◌+◌, ◌-◌, ◌*◌, ◌/◌, ◌%◌, ◌^◌, ◌<◌, ◌≤◌, ◌≡◌, ◌≢◌, ◌==◌, leb, ltb, ◌&&◌,
  if◌then◌else◌, false, some, none, List, [], ◌∷◌, length, All, All-map, arith, refl, sym, ap, ◌∙◌,
}
use mvmm.Memory.{Mem, load, load64}
use mvmm.Memory.Laws.{load-zero}
use mvmm.Spinlock.{spinlock_init}
use mvmm.Kalloc.{Pmem, page_size}
use mvmm.Kalloc.Pool.{IsPool, Chain}
use mvmm.Mm.{is_table, pidx}
use mvmm.Mm.Entry.{is_table-zero, pidx-lt}
use mvmm.Mm.Tables.{Labels, slot, entry, entry_from}
use mvmm.Mm.Walk.{IsSpace, IsData}
use mvmm.Vm.{Guest, rounds}
use mvmm.Vm.Image.{IsImage}
use mvmm.Vm.Layout.{IsRoom, AllMapped, map_memory-GuestMemory}

abbrev first : ℕ
first = 0x200000

-- Bytes 1 and 2 of a free page are those of the next page's address, and 0 in the last page.
big_mem : Mem
big_mem b =
    if leb first b && ltb b (first + 515 * page_size)
    then (if b % page_size == 1
        then (b / page_size + 1) * 16 % 256
        else if b % page_size == 2
        then (b / page_size + 1) / 16
        else 0)
    else if leb 0x8000 b && ltb b 0x8005
    then b - 0x7fff
    else 0

free_pages : ℕ → ℕ → List ℕ
free_pages k zero = []
free_pages k (suc left) = (first + k * page_size) ∷ free_pages (suc k) left

length-free_pages : (k left : ℕ) → length (free_pages k left) ≡ left
unfolding free_pages
length-free_pages k zero = refl
length-free_pages k (suc left) = ap suc (length-free_pages (suc k) left)

-- The pages from number `k` on come after a page `p` below them.
free_pages-after : (p k left : ℕ) → p < first + k * page_size → All (λ q. q ≢ p) (free_pages k left)
unfolding free_pages
free_pages-after p k zero lt = tt
free_pages-after p k (suc left) lt = (omega arith, free_pages-after p (suc k) left (omega arith))

next_page : ℕ → ℕ
next_page k = if k == 516 then 0 else first + k * page_size

byte_0 :
    (k b : ℕ)
    → k < 516
    → first + k * page_size ≤ b
    → b < first + suc k * page_size
    → b % page_size ≢ 1
    → b % page_size ≢ 2
    → big_mem b ≡ 0
unfolding big_mem
byte_0 k b lt lo hi one two = ground arith

byte_1 : (k : ℕ) → k < 516 → big_mem (first + k * page_size + 1) ≡ next_page (suc k) / 256 % 256
unfolding big_mem next_page
byte_1 k lt = ground arith

byte_2 : (k : ℕ) → k < 516 → big_mem (first + k * page_size + 1 + 1) ≡ next_page (suc k) / 65536
unfolding big_mem next_page
byte_2 k lt = ground arith

next_page-small : (k : ℕ) → k < 516 → (next_page (suc k) % 256 ≡ 0) × (next_page (suc k) < 2 ^ 24)
unfolding next_page
next_page-small k lt = (ground arith, ground arith)

link_at : (k : ℕ) → k < 516 → load64 big_mem (first + k * page_size) ≡ next_page (suc k)
unfolding load
link_at k lt =
    let p : ℕ = first + k * page_size in
    let tail : load 5 big_mem (p + 1 + 1 + 1) ≡ 0 = load-zero 5 big_mem (p + 1 + 1 + 1) (λ b lo hi.
      byte_0 k b lt (omega arith) (omega arith) (λ e. omega arith) (λ e. omega arith)) in
    let low = byte_0 k p lt (omega arith) (omega arith) (λ e. omega arith) (λ e. omega arith) in
    omega (arith, tail, low, byte_1 k lt, byte_2 k lt, next_page-small k lt)

big_pool : Pmem
big_pool = record { mem = big_mem; freelist = first; lock = spinlock_init }

big_mem-Chain : (k left : ℕ) → k + left ≡ 516 → Chain big_mem (next_page k) (free_pages k left)
unfolding free_pages next_page
big_mem-Chain k zero e = ground arith
big_mem-Chain k (suc left) e =
    let here : next_page k ≡ first + k * page_size = ground arith in
    (
      here,
      record { aligned = omega arith; ne_null = λ z. omega arith; fits = omega arith },
      free_pages-after (first + k * page_size) (suc k) left (omega arith),
      rw (link_at k (omega arith)) (big_mem-Chain (suc k) left (omega arith)),
    )

big_pool-IsPool : IsPool big_pool (free_pages 0 516)
unfolding big_pool next_page
big_pool-IsPool = record { unlocked = refl; chain = big_mem-Chain 0 516 refl }

big_label : Labels
big_label q = if q == 0x1000 then some (0, 0) else none

root_slot : (i : ℕ) → i < 512 → load64 big_mem (slot 0x1000 i) ≡ 0
unfolding big_mem
root_slot i lt = load-zero 8 big_mem (slot 0x1000 i) (λ b lo hi. ground arith)

free_label : (k left : ℕ) → All (λ q. big_label q ≡ none) (free_pages k left)
unfolding free_pages big_label
free_label k zero = tt
free_label k (suc left) = (ground arith, free_label (suc k) left)

root_at : (t l pre : ℕ) → big_label t ≡ some (l, pre) → t ≡ 0x1000
unfolding big_label
root_at t l pre at = ground arith

big_pool-IsSpace : IsSpace big_label 0x1000 big_pool (free_pages 0 516)
unfolding big_label big_pool
big_pool-IsSpace = record {
  tables = record {
    at_root = refl;
    page = λ t l pre at.
        let e = root_at t l pre at in
        record { aligned = rw e refl; ne_null = omega arith; fits = omega arith };
    child = λ t l pre i at up lt tab.
        let e = root_at t l pre at in
        let none_there : is_table (load64 big_mem (slot t i)) ≡ false =
          rw (e, root_slot i lt) is_table-zero in
        cc (sym none_there ∙ tab);
  };
  pool = big_pool-IsPool;
  free = free_label 0 516;
}

-- No address has a descriptor yet.
big_pool-entry : (va : ℕ) → entry big_pool.mem 0x1000 va ≡ 0
unfolding entry entry_from big_pool
big_pool-entry va = rw (root_slot (pidx 0 va) (pidx-lt 0 va), is_table-zero)

abbrev five_bytes : Guest
five_bytes = record { start = 0x8000; size = 5 }

image_page-IsData : IsData big_label (free_pages 0 516) 0x8000
unfolding big_label
image_page-IsData = record {
  aligned = refl;
  not_table = refl;
  not_free =
      All-map {P = λ q. q ≢ 0x8000} {Q = λ q. 0x8000 ≢ q} (λ q ne e. ne (sym e)) (free_pages 0 516)
        (free_pages-after 0x8000 0 516 (omega arith));
}

five_bytes-IsImage : IsImage (λ j. j + 1) big_label (free_pages 0 516) five_bytes big_pool.mem
unfolding big_pool big_mem
five_bytes-IsImage j lt = (0x8000, image_page-IsData, omega arith, omega arith, ground arith)

big_pool-IsRoom : IsRoom 0x40080000 0x81000 five_bytes (free_pages 0 516)
big_pool-IsRoom = record {
  aligned = refl;
  whole = refl;
  below = omega arith;
  fits = omega arith;
  low = omega arith;
  enough = omega (arith, length-free_pages 0 516);
}

map_memory-GuestMemory_example :
    AllMapped
      (λ j. j + 1)
      (0x81000 / page_size)
      (rounds 0 five_bytes.size)
      0
      0x1000
      0x40080000
      0x81000
      five_bytes
      big_pool
map_memory-GuestMemory_example =
    map_memory-GuestMemory (λ j. j + 1) 0 0x1000 0x40080000 0x81000 five_bytes big_label
      (free_pages 0 516) big_pool big_pool-IsSpace big_pool-IsRoom five_bytes-IsImage
      (λ k lt. rw (big_pool-entry (0x40000000 + k * page_size)) refl)
      (λ k lt. rw (big_pool-entry (0x40080000 + k * page_size)) refl)
