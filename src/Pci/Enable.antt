-- ===== src/Pci/Enable.antt =====
-- `pci_func_enable` over the registers of a function.
use mvmm.Base.{
  ℕ, zero, suc, ◌+◌, ◌/◌, ◌%◌, ◌^◌, ◌≤◌, ◌<◌, ◌≡◌, ◌≢◌, bit_or, true, false, ==-false, ltb-true,
  ltb-false, List, [], ◌∷◌, length, arith, refl, subst, ◌∙◌, write_at,
}
use mvmm.Pci.{
  ConfigSpace, Bases, PciDev, Enabling, pci_baseaddr_map, is_mem, is_mem64, place_bar, restore_bar,
  bar_round, enable_bars, pci_func_enable,
}
use mvmm.Pci.Place.{
  Slot, empty, port, narrow, wide, total, IsFunction, IsWindow, Unplaced, Placed, SameBelow,
  SameFrom, SameBelow-trans, Unplaced-kept, bar_size_lem, no_address, type_bits,
}

module _ {C : Type 0} (hw : ConfigSpace C) (held : ℕ → ℕ → ℕ) (fn : IsFunction hw held) where
  -- What one round at `i` leaves, if it goes on at `next` with the bases `b`.
  record Turn (i next : ℕ) (b : Bases) (e e' : Enabling C) : Type 0 where
    ran : bar_round hw i e ≡ (next, e')
    bases : e'.bases ≡ b
    below : SameBelow hw held i e e'
    from : SameFrom hw held next e.config e'.config

  -- A window that the round has placed at `a`.
  record Here (i s a : ℕ) (e' : Enabling C) : Type 0 where
    addr : e'.dev.reg_addr i ≡ a
    size : e'.dev.reg_size i ≡ s

  -- A register that was written twice.
  twice : (c : C) (i v w : ℕ) → hw.bar (hw.set_bar i w (hw.set_bar i v c)) i ≡ held i w
  twice c i v w = fn.self (hw.set_bar i v c) i w

  twice_other :
      (c : C) (i v w j : ℕ) → j ≢ i → hw.bar (hw.set_bar i w (hw.set_bar i v c)) j ≡ hw.bar c j
  twice_other c i v w j ne = fn.other (hw.set_bar i v c) i j w ne ∙ fn.other c i j v ne

  round-empty :
      (i : ℕ) (e : Enabling C)
      → held i 0xffffffff ≡ 0
      → (e' : Enabling C) × Turn i (i + 1) e.bases e e'
  unfolding bar_round
  round-empty i e none_there = (
    record e { config = hw.set_bar i 0xffffffff e.config },
    record {
      ran = rw (fn.self e.config i 0xffffffff, none_there) refl;
      bases = refl;
      below = record {
        addr = λ k lt. refl;
        size = λ k lt. refl;
        bars = λ k lt. fn.other e.config i k 0xffffffff (omega arith);
      };
      from = λ k le. fn.other e.config i k 0xffffffff (omega arith);
    },
  )

  round-port :
      (i : ℕ) (e : Enabling C)
      → held i 0xffffffff ≢ 0
      → is_mem (hw.bar e.config i) ≡ false
      → (e' : Enabling C) × Turn i (i + 1) e.bases e e'
  unfolding bar_round restore_bar
  round-port i e some_there io =
      let old : ℕ = hw.bar e.config i % 2 ^ 32 in
      (
        record e { config = hw.set_bar i old (hw.set_bar i 0xffffffff e.config) },
        record {
          ran = rw (fn.self e.config i 0xffffffff, ==-false some_there, io) refl;
          bases = refl;
          below = record {
            addr = λ k lt. refl;
            size = λ k lt. refl;
            bars = λ k lt. twice_other e.config i 0xffffffff old k (omega arith);
          };
          from = λ k le. twice_other e.config i 0xffffffff old k (omega arith);
        },
      )

  -- The record of the device after a window of `s` bytes is placed at `a`.
  abbrev noted : PciDev → ℕ → ℕ → ℕ → PciDev
  noted dev i s a = record dev {
    reg_addr = write_at dev.reg_addr i a;
    reg_size = write_at dev.reg_size i s;
  }

  round-narrow :
      (i s f : ℕ) (e : Enabling C)
      → hw.bar e.config i ≡ f
      → IsWindow hw held i s f
      → is_mem64 f ≡ false
      → (e' : Enabling C) × Turn i
          (i + 1)
          (record e.bases { base32 = (e.bases.base32 + s) % 2 ^ 64 })
          e
          e'
        × Here i s e.bases.base32 e'
        × (hw.bar e'.config i ≡ held i (bit_or e.bases.base32 f % 2 ^ 32))
  unfolding bar_round restore_bar place_bar pci_baseaddr_map
  round-narrow i s f e old w n =
      let v : ℕ = bit_or e.bases.base32 f % 2 ^ 32 in
      let small = w.small in
      let some_there : held i 0xffffffff ≢ 0 = omega (arith, w.mask) in
      (
        record {
          config = hw.set_bar i v (hw.set_bar i 0xffffffff e.config);
          bases = record e.bases { base32 = (e.bases.base32 + s) % 2 ^ 64 };
          dev = noted e.dev i s e.bases.base32;
        },
        record {
          ran =
              rw
                (
                  fn.self e.config i 0xffffffff,
                  ==-false some_there,
                  old,
                  w.mask,
                  bar_size_lem s f w.aligned w.some_bytes small w.flags,
                  no_address f w.flags,
                  type_bits f w.flags,
                  w.mem,
                  n,
                )
                refl;
          bases = refl;
          below = record {
            addr = λ k lt. ground arith;
            size = λ k lt. ground arith;
            bars = λ k lt. twice_other e.config i 0xffffffff v k (omega arith);
          };
          from = λ k le. twice_other e.config i 0xffffffff v k (omega arith);
        },
        record { addr = ground arith; size = ground arith },
        twice e.config i 0xffffffff v,
      )

  round-wide :
      (i s f : ℕ) (e : Enabling C)
      → hw.bar e.config i ≡ f
      → IsWindow hw held i s f
      → is_mem64 f ≡ true
      → (e' : Enabling C) × Turn i
          (i + 2)
          (record e.bases { base64 = (e.bases.base64 + s) % 2 ^ 64 })
          e
          e'
        × Here i s e.bases.base64 e'
        × (hw.bar e'.config i ≡ held i (bit_or e.bases.base64 f % 2 ^ 32))
        × (hw.bar e'.config (i + 1) ≡ held (i + 1) (bit_or e.bases.base64 f / 2 ^ 32 % 2 ^ 32))
  unfolding bar_round restore_bar place_bar pci_baseaddr_map
  round-wide i s f e old w n =
      let lo : ℕ = bit_or e.bases.base64 f % 2 ^ 32 in
      let hi : ℕ = bit_or e.bases.base64 f / 2 ^ 32 % 2 ^ 32 in
      let c1 : C = hw.set_bar i lo (hw.set_bar i 0xffffffff e.config) in
      let small = w.small in
      let some_there : held i 0xffffffff ≢ 0 = omega (arith, w.mask) in
      (
        record {
          config = hw.set_bar (i + 1) hi c1;
          bases = record e.bases { base64 = (e.bases.base64 + s) % 2 ^ 64 };
          dev = noted e.dev i s e.bases.base64;
        },
        record {
          ran =
              rw
                (
                  fn.self e.config i 0xffffffff,
                  ==-false some_there,
                  old,
                  w.mask,
                  bar_size_lem s f w.aligned w.some_bytes small w.flags,
                  no_address f w.flags,
                  type_bits f w.flags,
                  w.mem,
                  n,
                )
                refl;
          bases = refl;
          below = record {
            addr = λ k lt. ground arith;
            size = λ k lt. ground arith;
            bars = λ k lt.
                fn.other c1 (i + 1) k hi (omega arith)
                ∙ twice_other e.config i 0xffffffff lo k (omega arith);
          };
          from = λ k le.
              fn.other c1 (i + 1) k hi (omega arith)
              ∙ twice_other e.config i 0xffffffff lo k (omega arith);
        },
        record { addr = ground arith; size = ground arith },
        fn.other c1 (i + 1) i hi (omega arith) ∙ twice e.config i 0xffffffff lo,
        fn.self c1 (i + 1) hi,
      )

  abbrev Done : List Slot → ℕ → Enabling C → Enabling C → Type 0
  Done xs i e e' = Placed hw held xs i e.bases e' × SameBelow hw held i e e'

  -- The round at `i`, and the rest.
  run-round :
      (fuel i next : ℕ) (b : Bases) (e e1 : Enabling C)
      → i < 6
      → Turn i next b e e1
      → enable_bars hw (suc fuel) i e ≡ enable_bars hw fuel next e1
  unfolding enable_bars
  run-round fuel i next b e e1 lt r = rw (r.ran, ltb-true lt) refl

  -- The rest of the registers after a round, with the bases that it left.
  after_round :
      (xs : List Slot) (i next : ℕ) (b : Bases) (e e1 e' : Enabling C)
      → i ≤ next
      → Turn i next b e e1
      → Done xs next e1 e'
      → Placed hw held xs next b e' × SameBelow hw held i e e'
  after_round xs i next b e e1 e' le r (p, same) = (
    subst (λ x. Placed hw held xs next x e') r.bases p,
    SameBelow-trans hw held i next e e1 e' le r.below same,
  )

  enable_bars-end : (fuel : ℕ) (i : ℕ) (e : Enabling C) → i ≡ 6 → enable_bars hw fuel i e ≡ e
  unfolding enable_bars
  enable_bars-end zero i e six = refl
  enable_bars-end (suc fuel) i e six = rw (ltb-false {a = i} {b = 6} (omega arith)) refl

  no_registers : (i : ℕ) (e : Enabling C) → Done [] i e e
  no_registers i e =
      (refl, record { addr = λ k lt. refl; size = λ k lt. refl; bars = λ k lt. refl })

  enable_bars-Placed :
      (fuel i : ℕ) (xs : List Slot) (e : Enabling C)
      → length xs ≤ fuel
      → i + total xs ≡ 6
      → Unplaced hw held xs i e.config
      → Done xs i e (enable_bars hw fuel i e)
  enable_bars-Placed fuel i [] e enough all u =
      rw (enable_bars-end fuel i e (omega arith)) (no_registers i e)
  enable_bars-Placed zero i (x ∷ xs) e enough all u = absurd (omega arith)
  enable_bars-Placed (suc fuel) i (empty ∷ xs) e enough all (none_there, u) =
      let (e1, r) = round-empty i e none_there in
      rw (run-round fuel i (i + 1) e.bases e e1 (omega arith) r) (
        after_round xs i (i + 1) e.bases e e1 (enable_bars hw fuel (i + 1) e1) (omega arith) r (
          enable_bars-Placed fuel (i + 1) xs e1 (omega arith) (omega arith)
            (Unplaced-kept hw held xs (i + 1) e.config e1.config r.from u)))
  enable_bars-Placed (suc fuel) i (port ∷ xs) e enough all (some_there, io, u) =
      let (e1, r) = round-port i e some_there io in
      rw (run-round fuel i (i + 1) e.bases e e1 (omega arith) r) (
        after_round xs i (i + 1) e.bases e e1 (enable_bars hw fuel (i + 1) e1) (omega arith) r (
          enable_bars-Placed fuel (i + 1) xs e1 (omega arith) (omega arith)
            (Unplaced-kept hw held xs (i + 1) e.config e1.config r.from u)))
  enable_bars-Placed (suc fuel) i (narrow s f ∷ xs) e enough all (old, w, n, u) =
      let b : Bases = record e.bases { base32 = (e.bases.base32 + s) % 2 ^ 64 } in
      let (e1, r, here, kept) = round-narrow i s f e old w n in
      let (p, same) =
        enable_bars-Placed fuel (i + 1) xs e1 (omega arith) (omega arith)
          (Unplaced-kept hw held xs (i + 1) e.config e1.config r.from u) in
      let (p', same') =
        after_round xs i (i + 1) b e e1 (enable_bars hw fuel (i + 1) e1) (omega arith) r
          (p, same) in
      rw (run-round fuel i (i + 1) b e e1 (omega arith) r) (
        (
          same.addr i (omega arith) ∙ here.addr,
          same.size i (omega arith) ∙ here.size,
          same.bars i (omega arith) ∙ kept,
          p',
        ),
        same',
      )
  enable_bars-Placed (suc fuel) i (wide s f ∷ xs) e enough all (old, w, n, u) =
      let b : Bases = record e.bases { base64 = (e.bases.base64 + s) % 2 ^ 64 } in
      let (e1, r, here, low, high) = round-wide i s f e old w n in
      let (p, same) =
        enable_bars-Placed fuel (i + 2) xs e1 (omega arith) (omega arith)
          (Unplaced-kept hw held xs (i + 2) e.config e1.config r.from u) in
      let (p', same') =
        after_round xs i (i + 2) b e e1 (enable_bars hw fuel (i + 2) e1) (omega arith) r
          (p, same) in
      rw (run-round fuel i (i + 2) b e e1 (omega arith) r) (
        (
          same.addr i (omega arith) ∙ here.addr,
          same.size i (omega arith) ∙ here.size,
          same.bars i (omega arith) ∙ low,
          same.bars (i + 1) (omega arith) ∙ high,
          p',
        ),
        same',
      )

length-total : (xs : List Slot) → length xs ≤ total xs
length-total [] = omega arith
length-total (empty ∷ xs) = omega (arith, length-total xs)
length-total (port ∷ xs) = omega (arith, length-total xs)
length-total (narrow s f ∷ xs) = omega (arith, length-total xs)
length-total (wide s f ∷ xs) = omega (arith, length-total xs)

-- For a function whose six registers answer as the list of slots says, with no address set, the
-- enabling notes for each window in memory its size and the next free address of its kind, 32-bit or
-- 64-bit, writes that address with the type bits to the register, or to both of a 64-bit address, and
-- moves the base of that kind on by the size.
pub pci_func_enable-Placed :
    {C : Type 0} (hw : ConfigSpace C) (held : ℕ → ℕ → ℕ) (xs : List Slot) (e : Enabling C)
    → IsFunction hw held
    → total xs ≡ 6
    → Unplaced hw held xs 0 e.config
    → Placed hw held xs 0 e.bases (pci_func_enable hw e)
unfolding pci_func_enable
pci_func_enable-Placed hw held xs e fn all u =
    let c : ℕ = bit_or (hw.command e.config) 7 in
    (enable_bars-Placed hw held fn 6 0 xs
      (record e {
        config = hw.set_command c e.config;
        dev = record e.dev { vndr_id = hw.vendor_id e.config; dev_id = hw.device_id e.config };
      })
      (omega (arith, length-total xs)) (omega arith)
      (Unplaced-kept hw held xs 0 e.config (hw.set_command c e.config)
        (λ k le. fn.command e.config c k) u)).0
