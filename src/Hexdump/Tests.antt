-- ===== src/Hexdump/Tests.antt =====
-- Dumps of src/utils/hexdump.c.
use potatos.Base.{◌≡◌, refl, arith, some, false, if◌then◌else◌, leb, List, [], ◌∷◌, Memory}
use potatos.Print.Pieces.{hex, literal}
use potatos.Hexdump.{Call, byte_call, hexdump}
use potatos.Hexdump.Rows.{IsDump, hexdump_lem}

-- Zeros up to 32, and 10 from there on.
abbrev tens : Memory
tens = λ a. if leb 32 a then 10 else 0

-- The number 10 has one digit.
one_digit : byte_call 0 32 40 tens ≡ hex 10 ∷ literal b' ' ∷ []
one_digit = refl

hexdump_lem_example :
    (calls : List Call) × (hexdump 4 0 40 tens ≡ some calls) × IsDump 3 false 0 40 tens calls
hexdump_lem_example = hexdump_lem 4 0 40 tens (omega arith) (omega arith)
