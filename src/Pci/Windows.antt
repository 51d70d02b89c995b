-- ===== src/Pci/Windows.antt =====
-- The windows that the functions on the bus get do not overlap.
use mvmm.Base.{ℕ, ◌+◌, ◌%◌, ◌^◌, ◌≤◌, ◌<◌, ◌≡◌, ◌⊎◌, inl, inr, List, [], ◌∷◌, All, All-map, arith}
use mvmm.Pci.{ConfigSpace, Bases, Enabling, pci_func_enable}
use mvmm.Pci.Place.{Slot, empty, port, narrow, wide, total, IsFunction, Unplaced, Placed}
use mvmm.Pci.Enable.{pci_func_enable-Placed}

-- The registers of the windows, and the bytes that those of each kind need.
abbrev pub windows : List Slot → ℕ → List ℕ
windows [] i = []
windows (empty ∷ xs) i = windows xs (i + 1)
windows (port ∷ xs) i = windows xs (i + 1)
windows (narrow s f ∷ xs) i = i ∷ windows xs (i + 1)
windows (wide s f ∷ xs) i = i ∷ windows xs (i + 2)

abbrev pub need32 : List Slot → ℕ
need32 [] = 0
need32 (narrow s f ∷ xs) = s + need32 xs
need32 (_ ∷ xs) = need32 xs

abbrev pub need64 : List Slot → ℕ
need64 [] = 0
need64 (wide s f ∷ xs) = s + need64 xs
need64 (_ ∷ xs) = need64 xs

module _ {C : Type 0} where
  abbrev pub Apart : Enabling C → ℕ → ℕ → Type 0
  Apart e k l =
      (e.dev.reg_addr k + e.dev.reg_size k ≤ e.dev.reg_addr l)
      ⊎ (e.dev.reg_addr l + e.dev.reg_size l ≤ e.dev.reg_addr k)

  -- No two of the windows share a byte.
  abbrev pub Disjoint : Enabling C → List ℕ → Type 0
  Disjoint e [] = Unit
  Disjoint e (k ∷ ks) = All (Apart e k) ks × Disjoint e ks

  -- A window with a 32-bit address ends before `top`, one with a 64-bit address starts after it; none
  -- starts before its base, or ends after its end.
  abbrev pub InRange : Bases → ℕ → ℕ → Enabling C → ℕ → Type 0
  InRange b top end64 e k =
      ((b.base32 ≤ e.dev.reg_addr k) × (e.dev.reg_addr k + e.dev.reg_size k ≤ top))
      ⊎ ((b.base64 ≤ e.dev.reg_addr k) × (e.dev.reg_addr k + e.dev.reg_size k ≤ end64))

  module _ (hw : ConfigSpace C) (held : ℕ → ℕ → ℕ) (top end64 : ℕ) (e : Enabling C) where
    Placed-ranges :
        (xs : List Slot) (i : ℕ) (b : Bases)
        → b.base32 + need32 xs ≤ top
        → top ≤ b.base64
        → b.base64 + need64 xs ≤ end64
        → end64 < 2 ^ 64
        → Placed hw held xs i b e
        → All (InRange b top end64 e) (windows xs i) × Disjoint e (windows xs i)
    Placed-ranges [] i b low gap high fits p = (tt, tt)
    Placed-ranges (empty ∷ xs) i b low gap high fits p =
        Placed-ranges xs (i + 1) b low gap high fits p
    Placed-ranges (port ∷ xs) i b low gap high fits p =
        Placed-ranges xs (i + 1) b low gap high fits p
    Placed-ranges (narrow s f ∷ xs) i b low gap high fits (addr, size, _, p) =
        let b' : Bases = record b { base32 = (b.base32 + s) % 2 ^ 64 } in
        let moved : (b.base32 + s) % 2 ^ 64 ≡ b.base32 + s = omega arith in
        let (inside, apart) = Placed-ranges xs (i + 1) b' (omega arith) gap high fits p in
        (
          (
            inl (omega arith),
            All-map {P = InRange b' top end64 e} (λ k r. omega arith) (windows xs (i + 1)) inside,
          ),
          (
            All-map {P = InRange b' top end64 e} (λ k r. omega arith) (windows xs (i + 1)) inside,
            apart,
          ),
        )
    Placed-ranges (wide s f ∷ xs) i b low gap high fits (addr, size, _, _, p) =
        let b' : Bases = record b { base64 = (b.base64 + s) % 2 ^ 64 } in
        let moved : (b.base64 + s) % 2 ^ 64 ≡ b.base64 + s = omega arith in
        let (inside, apart) = Placed-ranges xs (i + 2) b' low (omega arith) (omega arith) fits p in
        (
          (
            inr (omega arith),
            All-map {P = InRange b' top end64 e} (λ k r. omega arith) (windows xs (i + 2)) inside,
          ),
          (
            All-map {P = InRange b' top end64 e} (λ k r. omega arith) (windows xs (i + 2)) inside,
            apart,
          ),
        )

-- For a function whose six registers are the slots `xs`, in a configuration space that answers as
-- `IsFunction` and `Unplaced` say, with the 32-bit windows ending before the 64-bit ones start and nothing
-- that wraps around: no two of the ranges that `reg_addr` and `reg_size` note for the function share a byte, and
-- each lies between the base of its kind and the end of what the function needs of that kind. Nothing is
-- said of what a register decodes that cannot hold the address, because it is no multiple of the size.
pub pci_func_enable-Disjoint :
    {C : Type 0} (hw : ConfigSpace C) (held : ℕ → ℕ → ℕ) (xs : List Slot) (e : Enabling C)
    → IsFunction hw held
    → total xs ≡ 6
    → Unplaced hw held xs 0 e.config
    → e.bases.base32 + need32 xs ≤ e.bases.base64
    → e.bases.base64 + need64 xs < 2 ^ 64
    → Disjoint (pci_func_enable hw e) (windows xs 0)
      × All
          (InRange e.bases
            (e.bases.base32 + need32 xs)
            (e.bases.base64 + need64 xs)
            (pci_func_enable hw e))
          (windows xs 0)
pci_func_enable-Disjoint hw held xs e fn all u gap fits =
    let (inside, apart) =
      Placed-ranges hw held (e.bases.base32 + need32 xs) (e.bases.base64 + need64 xs)
        (pci_func_enable hw e) xs 0 e.bases (omega arith) gap (omega arith) fits
        (pci_func_enable-Placed hw held xs e fn all u) in
    (apart, inside)
