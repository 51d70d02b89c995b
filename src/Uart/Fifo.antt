-- ===== src/Uart/Fifo.antt =====
-- The characters that go through the port.
use mvmm.Base.{
  none, some, ℕ, zero, suc, ◌+◌, ◌^◌, ◌≤◌, ◌<◌, ◌≡◌, ◌≢◌, ◌⊎◌, bit_and, true, ◌==◌, ==-true,
  ==-false, ne_of_==, Bool-cases, inl, inr, List, [], ◌∷◌, ◌++◌, length, ok, arith, ap, refl, sym,
  ◌∙◌,
}
use mvmm.Memory.{Mem}
use mvmm.CLib.Strings.Laws.{IsString}
use mathlib.Core.List.{append_assoc, append-nil}
use mvmm.Uart.{
  Serial, dr, fr, fr_rxfe, fr_txff, mis, icr, uart_putc, uart_puts, uart_getc, drain, uartintr,
}

-- The documented behaviour that the code relies on, for a view of the device as its characters: those
-- received and not yet read, those sent, and how many reads of the flags it stays busy.
pub record IsPort {U : Type 0} (port : Serial U) (received sent : U → List ℕ) (busy : U → ℕ)
    : Type 0 where
  pub empty_flag : (u : U) → received u ≡ [] → bit_and (port.read fr u).0 fr_rxfe ≢ 0
  pub full_flag :
      (u : U) (c : ℕ) (cs : List ℕ)
      → received u ≡ c ∷ cs
      → (bit_and (port.read fr u).0 fr_rxfe ≡ 0) × (received (port.read fr u).1 ≡ c ∷ cs)
  pub flags_kept : (u : U) → received u ≡ [] → received (port.read fr u).1 ≡ []
  pub take_char :
      (u : U) (c : ℕ) (cs : List ℕ)
      → received u ≡ c ∷ cs
      → ((port.read dr u).0 ≡ c) × (received (port.read dr u).1 ≡ cs)
  pub status_kept : (u : U) → received (port.read mis u).1 ≡ received u
  pub clear_kept : (u : U) (v : ℕ) → received (port.write icr v u) ≡ received u
  pub ready : (u : U) → busy u ≡ 0 → bit_and (port.read fr u).0 fr_txff ≡ 0
  pub waits : (u : U) → busy (port.read fr u).1 + 1 ≤ busy u ⊎ (busy u ≡ 0)
  pub sent_kept : (u : U) → sent (port.read fr u).1 ≡ sent u
  pub put : (u : U) (c : ℕ) → sent (port.write dr c u) ≡ sent u ++ (c ∷ [])

module _ {U : Type 0} (port : Serial U) (received sent : U → List ℕ) (busy : U → ℕ)
    (p : IsPort port received sent busy) where
  getc-nothing : (u : U) → received u ≡ [] → uart_getc port u ≡ (none, (port.read fr u).1)
  unfolding uart_getc
  getc-nothing u e = rw (==-false (p.empty_flag u e)) refl

  getc-char :
      (u : U) (c : ℕ) (cs : List ℕ)
      → received u ≡ c ∷ cs
      → (u' : U) × (uart_getc port u ≡ (some c, u')) × (received u' ≡ cs)
  unfolding uart_getc
  getc-char u c cs e =
      let (flag, same) = p.full_flag u c cs e in
      let u1 : U = (port.read fr u).1 in
      let (read_char, left) = p.take_char u1 c cs same in
      (
        (port.read dr u1).1,
        rw (==-true flag) (ap (λ x. (some x, (port.read dr u1).1)) read_char),
        left,
      )

  drain-empties :
      (cs : List ℕ) (fuel : ℕ) (u : U)
      → length cs < fuel
      → received u ≡ cs
      → (u' : U) × (drain port fuel u ≡ ok u') × (received u' ≡ [])
  unfolding drain
  drain-empties cs zero u enough e = absurd (omega arith)
  drain-empties [] (suc fuel) u enough e =
      ((port.read fr u).1, rw (getc-nothing u e) refl, p.flags_kept u e)
  drain-empties (c ∷ cs) (suc fuel) u enough e =
      let (u1, got, left) = getc-char u c cs e in
      let (u', ran, none_left) = drain-empties cs fuel u1 (omega arith) left in
      (u', rw got ran, none_left)

  -- With characters received and their interrupt raised, `uartintr` ends, with more fuel than there are
  -- characters, and leaves none of them in the device.
  pub uartintr-empties :
      (fuel : ℕ) (u : U)
      → length (received u) < fuel
      → bit_and (port.read mis u).0 (2 ^ 4) ≢ 0
      → (u' : U) × (uartintr port fuel u ≡ ok (true, u')) × (received u' ≡ [])
  unfolding uartintr
  uartintr-empties fuel u enough raised =
      let (u2, ran, none_left) =
        drain-empties (received u) fuel (port.read mis u).1 enough (p.status_kept u) in
      (
        port.write icr (2 ^ 4) u2,
        rw (==-false raised, ran) refl,
        p.clear_kept u2 (2 ^ 4) ∙ none_left,
      )

  pub uart_putc-sends :
      (fuel c : ℕ) (u : U)
      → busy u < fuel
      → (u' : U) × (uart_putc port fuel c u ≡ ok u') × (sent u' ≡ sent u ++ (c ∷ []))
  unfolding uart_putc
  uart_putc-sends zero c u enough = absurd (omega arith)
  uart_putc-sends (suc fuel) c u enough =
      let u1 : U = (port.read fr u).1 in
      elim (Bool-cases (bit_and (port.read fr u).0 fr_txff == 0)) [
        | inl free ↦
            (port.write dr c u1, rw free refl, p.put u1 c ∙ ap (λ x. x ++ (c ∷ [])) (p.sent_kept u))
        | inr full ↦
            let busy_now : busy u ≢ 0 = λ z. ne_of_== _ 0 full (p.ready u z) in
            let step = p.waits u in
            let (u', ran, sends) = uart_putc-sends fuel c u1 (omega arith) in
            (u', rw full ran, sends ∙ ap (λ x. x ++ (c ∷ [])) (p.sent_kept u))
      ]

  -- A string of memory goes out whole and in order, with fuel for its characters, when a wait for room is
  -- always shorter than the fuel of a wait.
  uart_puts-sends :
      (fuel chars : ℕ) (m : Mem) (s : ℕ) (cs : List ℕ) (u : U)
      → ((v : U) → busy v < fuel)
      → length cs < chars
      → IsString m s cs
      → (u' : U) × (uart_puts port fuel chars m s u ≡ ok u') × (sent u' ≡ sent u ++ cs)
  unfolding uart_puts
  uart_puts-sends fuel zero m s cs u patient enough str = absurd (omega arith)
  uart_puts-sends fuel (suc chars) m s [] u patient enough str =
      (u, rw (==-true str) refl, sym (append-nil (sent u)))
  uart_puts-sends fuel (suc chars) m s (c ∷ cs) u patient enough (at, ne, rest) =
      let nonzero : m s ≢ 0 = λ z. ne (sym at ∙ z) in
      let (u1, ran1, one) = uart_putc-sends fuel (m s) u (patient u) in
      let (u', ran, more) = uart_puts-sends fuel chars m (s + 1) cs u1 patient (omega arith) rest in
      (
        u',
        rw (==-false nonzero, ran1) ran,
        more
            ∙ ap (λ x. x ++ cs) (one ∙ ap (λ (x : ℕ). sent u ++ (x ∷ [])) at)
            ∙ append_assoc (sent u) (c ∷ []) cs,
      )
