-- ===== src/Hexdump/Rows.antt =====
-- The rows of a dump of src/utils/hexdump.c, each by itself.
use potatos.Base.{
  ℕ, zero, suc, ◌+◌, ◌-◌, ◌/◌, ◌^◌, ◌≤◌, ◌<◌, ◌≡◌, refl, ◌∙◌, ap, inl, inr, Bool, true, false, ◌&&◌,
  Bool-cases, arith, some, List, [], ◌∷◌, ◌++◌, ◌==◌, if◌then◌else◌, ltb, u64, Memory,
}
use potatos.Print.Pieces.{literal}
use potatos.Hexdump.{Call, blank_loop, line_calls, dump_loop, hexdump}
use potatos.Hexdump.Lines.{IsLine, line_calls-IsLine}

-- Are the 16 bytes from `ptr` on 0?
pub zero_bytes : (n ptr : ℕ) → Memory → Bool
zero_bytes zero ptr m = true
zero_bytes (suc n) ptr m = (m ptr == 0) && zero_bytes n (ptr + 1) m

blank_loop_lem :
    (left i ptr a : ℕ) (skip : Bool) (m : Memory)
    → ptr + i ≡ a
    → blank_loop left i ptr skip m ≡ (skip && zero_bytes left a m)
unfolding blank_loop zero_bytes
blank_loop_lem zero i ptr a skip m at = ground arith
blank_loop_lem (suc left) i ptr a skip m at =
    let here : m (ptr + i) ≡ m a = ap m at in
    blank_loop_lem left (i + 1) ptr (a + 1) _ m (omega arith) ∙ rw here (ground arith)

-- The mark in front of a line behind a row of zeros: " ... [SKIP] ..." and the end of the line.
abbrev pub mark : Call
mark =
    literal 32
    ∷ literal 46
    ∷ literal 46
    ∷ literal 46
    ∷ literal 32
    ∷ literal 91
    ∷ literal 83
    ∷ literal 75
    ∷ literal 73
    ∷ literal 80
    ∷ literal 93
    ∷ literal 32
    ∷ literal 46
    ∷ literal 46
    ∷ literal 46
    ∷ literal 10
    ∷ []

-- The calls of `rows` rows, the first at `ptr`: none for a row of zeros; else a line, behind a mark if
-- the row in front of it was one of zeros.
abbrev pub IsDump : (rows : ℕ) → (after_zeros : Bool) → (ptr end : ℕ) → Memory → List Call → Type 0
IsDump zero after_zeros ptr end m calls = calls ≡ []
IsDump (suc rows) after_zeros ptr end m calls = elim (zero_bytes 16 ptr m) [
  | true ↦ IsDump rows true (ptr + 16) end m calls
  | false ↦
      (line : List Call) × (rest : List Call) × (calls
        ≡ (if after_zeros then mark ∷ [] else []) ++ line ++ rest)
      × IsLine ptr end m line
      × IsDump rows false (ptr + 16) end m rest
]

module _ (fuel rows ptr end : ℕ) (skipped : Bool) (m : Memory) (rest : List Call)
    (inside : ltb ptr end ≡ true) (fits : ptr + 16 < 2 ^ 64) where
  next : u64 (ptr + 16) ≡ ptr + 16
  next = omega arith

  blank : blank_loop 16 0 ptr true m ≡ zero_bytes 16 ptr m
  blank = blank_loop_lem 16 0 ptr ptr true m (omega arith)

  zeros_step :
      zero_bytes 16 ptr m ≡ true
      → dump_loop fuel (ptr + 16) end true m ≡ some rest
      → IsDump rows true (ptr + 16) end m rest
      → (dump_loop (suc fuel) ptr end skipped m ≡ some rest)
        × IsDump (suc rows) skipped ptr end m rest
  unfolding dump_loop
  zeros_step zeros run dump =
      (rw (dump_loop, inside, blank, zeros, next) run, rw (IsDump, zeros) dump)

  line_step :
      zero_bytes 16 ptr m ≡ false
      → dump_loop fuel (ptr + 16) end false m ≡ some rest
      → IsDump rows false (ptr + 16) end m rest
      → let calls = (if skipped then mark ∷ [] else []) ++ line_calls ptr end m ++ rest in
        (dump_loop (suc fuel) ptr end skipped m ≡ some calls)
        × IsDump (suc rows) skipped ptr end m calls
  unfolding dump_loop
  line_step nonzero run dump = (
    rw (dump_loop, inside, blank, nonzero, next, run) refl,
    rw (IsDump, nonzero) (line_calls ptr end m, rest, refl, line_calls-IsLine ptr end m, dump),
  )

dump_loop_lem :
    (fuel rows ptr end : ℕ) (skipped : Bool) (m : Memory)
    → rows < fuel
    → rows ≡ (end - ptr + 15) / 16
    → end + 16 ≤ 2 ^ 64
    → (calls : List Call) × (dump_loop fuel ptr end skipped m ≡ some calls)
      × IsDump rows skipped ptr end m calls
unfolding dump_loop
dump_loop_lem zero rows ptr end skipped m enough count fits = absurd (omega arith)
dump_loop_lem (suc fuel) zero ptr end skipped m enough count fits =
    let out : ltb ptr end ≡ false = ground arith in ([], rw (dump_loop, out) refl, refl)
dump_loop_lem (suc fuel) (suc rows) ptr end skipped m enough count fits =
    let inside : ltb ptr end ≡ true = ground arith in
    let following =
      λ (b : Bool). dump_loop_lem fuel rows (ptr + 16) end b m (omega arith) (omega arith) fits in
    elim (Bool-cases (zero_bytes 16 ptr m)) [
      | inl zeros ↦
          let (rest, run, dump) = following true in
          let step =
            zeros_step fuel rows ptr end skipped m rest inside (omega arith) zeros run dump in
          (rest, step.0, step.1)
      | inr nonzero ↦
          let (rest, run, dump) = following false in
          let step =
            line_step fuel rows ptr end skipped m rest inside (omega arith) nonzero run dump in
          (_, step.0, step.1)
    ]

-- `hexdump` returns, with more fuel than there are rows of 16 bytes, below the end of the address
-- space, the calls of the rows in order. A row of zeros has none. Any other row has a line, behind a mark
-- if the row in front of it was one of zeros: the address, for each of the 16 bytes its number in base
-- 16 or blanks from `end` on, a bar, for each of the 16 bytes its character, a dot for one that cannot
-- be printed or a blank from `end` on, and the end of the line.
pub hexdump_lem :
    (fuel start end : ℕ) (m : Memory)
    → (end - start + 15) / 16 < fuel
    → end + 16 ≤ 2 ^ 64
    → (calls : List Call) × (hexdump fuel start end m ≡ some calls)
      × IsDump ((end - start + 15) / 16) false start end m calls
unfolding hexdump
hexdump_lem fuel start end m enough fits = dump_loop_lem fuel _ start end false m enough refl fits
