-- ===== src/Hexdump.antt =====
-- src/utils/hexdump.c: the calls of `printf` that a dump makes, each as the pieces of its format with
-- their arguments.
pub mod Lines
pub mod Rows
mod Tests
use potatos.Base.{
  ℕ, zero, suc, ◌+◌, ◌^◌, Bool, true, false, ◌&&◌, Option, none, some, List, [], ◌∷◌, ◌++◌, map,
  ◌==◌, if◌then◌else◌, ltb, leb, u64, Memory,
}
use potatos.Print.Pieces.{Piece, literal, hex, pointer, char}

-- What one call of `printf` prints.
abbrev pub Call : Type 0
Call = List Piece

abbrev pub literals : List ℕ → Call
literals xs = map literal xs

-- " ... [SKIP] ...\n"
abbrev pub skip_call : Call
skip_call = literals (
    b' ' ∷ b'.' ∷ b'.' ∷ b'.' ∷ b' ' ∷ b'[' ∷ b'S' ∷ b'K' ∷ b'I' ∷ b'P' ∷ b']' ∷ b' ' ∷ b'.' ∷ b'.'
    ∷ b'.' ∷ 10 ∷ [])

-- The loop that looks for a byte that is not 0, at index `i`, with `left` rounds to go.
pub blank_loop : (left i ptr : ℕ) → (skip : Bool) → Memory → Bool
blank_loop zero i ptr skip m = skip
blank_loop (suc left) i ptr skip m =
    blank_loop left (i + 1) ptr (if m (ptr + i) == 0 then skip else false) m

-- The number of the byte `i`, in two digits and a space.
abbrev pub byte_call : (i ptr end_ptr : ℕ) → Memory → Call
byte_call i ptr end_ptr m =
    if ltb (ptr + i) end_ptr
    then (if leb 10 (m (ptr + i))
        then hex (m (ptr + i)) ∷ literal b' ' ∷ []
        else literal b'0' ∷ hex (m (ptr + i)) ∷ literal b' ' ∷ [])
    else literals (b' ' ∷ b' ' ∷ b' ' ∷ [])

-- The byte `i` as a character.
abbrev pub char_call : (i ptr end_ptr : ℕ) → Memory → Call
char_call i ptr end_ptr m =
    if ltb (ptr + i) end_ptr
    then (let ch = m (ptr + i) in char (if leb 32 ch && ltb ch 127 then ch else b'.') ∷ [])
    else literal b' ' ∷ []

pub bytes_loop : (left i ptr end_ptr : ℕ) → Memory → List Call
bytes_loop zero i ptr end_ptr m = []
bytes_loop (suc left) i ptr end_ptr m =
    byte_call i ptr end_ptr m ∷ bytes_loop left (i + 1) ptr end_ptr m

pub chars_loop : (left i ptr end_ptr : ℕ) → Memory → List Call
chars_loop zero i ptr end_ptr m = []
chars_loop (suc left) i ptr end_ptr m =
    char_call i ptr end_ptr m ∷ chars_loop left (i + 1) ptr end_ptr m

-- The line of the 16 bytes from `ptr` on.
pub line_calls : (ptr end_ptr : ℕ) → Memory → List Call
unfolding bytes_loop chars_loop
line_calls ptr end_ptr m =
    (pointer ptr ∷ literal b':' ∷ literal b' ' ∷ []) ∷ bytes_loop 16 0 ptr end_ptr m
    ++ literals (b' ' ∷ b'|' ∷ b' ' ∷ []) ∷ chars_loop 16 0 ptr end_ptr m
    ++ (literal 10 ∷ []) ∷ []

-- The outer loop; `none` if the fuel runs out.
pub dump_loop : (fuel ptr end_ptr : ℕ) → (skipped : Bool) → Memory → Option (List Call)
unfolding blank_loop line_calls
dump_loop zero ptr end_ptr skipped m = none
dump_loop (suc fuel) ptr end_ptr skipped m = elim (ltb ptr end_ptr) [
  | false ↦ some []
  | true ↦ elim (blank_loop 16 0 ptr true m) [
    | true ↦ dump_loop fuel (u64 (ptr + 16)) end_ptr true m
    | false ↦ elim (dump_loop fuel (u64 (ptr + 16)) end_ptr false m) [
      | none ↦ none
      | some rest ↦
          some ((if skipped then skip_call ∷ [] else []) ++ line_calls ptr end_ptr m ++ rest)
    ]
  ]
]

pub hexdump : (fuel start end : ℕ) → Memory → Option (List Call)
unfolding dump_loop
hexdump fuel start end m = dump_loop fuel start end false m
