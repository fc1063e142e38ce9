-- ===== src/Serial/Wait.antt =====
-- `write_serial` of src/drivers/serial.c sends a byte once the transmitter is empty.
use mathlib.Core.Path.{subst}
use potatos.Base.{
  ℕ, zero, suc, ◌+◌, ◌-◌, ◌≤◌, ◌<◌, ◌≡◌, ◌≢◌, refl, sym, ap, ◌∙◌, true, ◌==◌, arith, Bool-cases,
  inl, inr, some, [], ◌∷◌, ◌++◌, bit_and,
}
use potatos.Serial.{Serial, port_com1, wait_loop, write_serial}

-- The transmitter is reported empty at the given read.
abbrev pub IsReady : Serial → ℕ → Type 0
IsReady s read = bit_and (s.status read) 0x20 ≢ 0

-- The transmitter is reported empty at one of any `patience` reads in a row.
abbrev pub IsAlive : (patience : ℕ) → (ℕ → ℕ) → Type 0
IsAlive patience status =
    (read : ℕ) → (k : ℕ) × (k < patience) × (bit_and (status (read + k)) 0x20 ≢ 0)

-- A read that does not report it empty is not the one that does.
waits :
    (status : ℕ → ℕ) (r k : ℕ)
    → (bit_and (status r) 0x20 == 0) ≡ true
    → bit_and (status (r + k)) 0x20 ≢ 0
    → 1 ≤ k
waits status r zero full ready =
    let here : r + 0 ≡ r = omega arith in
    absurd (subst (λ q. bit_and (status q) 0x20 ≢ 0) here ready (ground arith))
waits status r (suc k) full ready = omega arith

wait_loop_lem :
    (fuel k : ℕ) (s : Serial)
    → k < fuel
    → IsReady s (s.reads + k)
    → (n : ℕ) × (wait_loop fuel s ≡ some (record s { reads = s.reads + n + 1 }))
      × IsReady s (s.reads + n)
      × (n ≤ k)
unfolding wait_loop
wait_loop_lem zero k s enough ready = absurd (omega arith)
wait_loop_lem (suc fuel) k s enough ready =
    elim (Bool-cases (bit_and (s.status s.reads) 0x20 == 0)) [
      | inr empty ↦
          let here : s.reads + 0 ≡ s.reads = omega arith in
          (0, rw (empty, here) refl, rw here (ground arith), omega arith)
      | inl full ↦
          let later : 1 ≤ k = waits (s.status) s.reads k full ready in
          let next : s.reads + 1 + (k - 1) ≡ s.reads + k = omega arith in
          let (n, runs, at, early) =
            wait_loop_lem fuel (k - 1) (record s { reads = s.reads + 1 }) (omega arith)
              (subst (λ r. bit_and (s.status r) 0x20 ≢ 0) (sym next) ready) in
          let sum : s.reads + 1 + n ≡ s.reads + (n + 1) = omega arith in
          (
            n + 1,
            rw full (runs ∙ ap (λ r. some (record s { reads = r })) (omega arith)),
            subst (λ r. bit_and (s.status r) 0x20 ≢ 0) sum at,
            omega arith,
          )
    ]

-- `write_serial` returns with fuel for as many reads as the device takes at most to report an empty
-- transmitter, and sends its byte once, after all that was sent before: it has read the status until
-- the last read, which reported the transmitter empty.
pub write_serial_lem :
    (patience fuel ch : ℕ) (s : Serial)
    → IsAlive patience s.status
    → patience ≤ fuel
    → (n : ℕ) × (write_serial fuel ch s
        ≡ some (record s { reads = s.reads + n + 1; ports = s.ports ++ (port_com1, ch) ∷ [] }))
      × IsReady s (s.reads + n)
      × (n < patience)
unfolding write_serial
write_serial_lem patience fuel ch s alive enough =
    let (k, below, ready) = alive s.reads in
    let (n, runs, at, early) = wait_loop_lem fuel k s (omega arith) ready in
    (n, rw runs refl, at, omega arith)
