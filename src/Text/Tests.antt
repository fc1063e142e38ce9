-- ===== src/Text/Tests.antt =====
-- The functions of src/lib/string.c at concrete memories.
use potatos.Base.{
  ℕ, ◌+◌, ◌≡◌, refl, arith, false, ◌==◌, if◌then◌else◌, inl, List, [], ◌∷◌, some, length, Memory,
}
use potatos.Text.{strlen, strcpy}
use potatos.Text.Copy.{within}
use potatos.Text.Strings.{IsString, strlen_lem, strcpy_lem}

-- "Hi" at 20.
abbrev greeting : Memory
greeting a = if a == 20 then 72 else if a == 21 then 105 else 0

abbrev hi : List ℕ
hi = 72 ∷ 105 ∷ []

greeting-IsString : IsString greeting 20 hi
greeting-IsString = (refl, ground arith, (refl, ground arith, refl))

strlen_lem_example : strlen 3 greeting 20 ≡ some (length hi)
strlen_lem_example = strlen_lem hi 3 greeting 20 greeting-IsString (omega arith)

strcpy_lem_example :
    (m' : Memory) × (strcpy 3 10 20 greeting ≡ some m')
    × IsString m' 10 hi
    × ((x : ℕ) → within 10 (length hi + 1) x ≡ false → m' x ≡ greeting x)
strcpy_lem_example =
    strcpy_lem hi 3 10 20 greeting greeting-IsString (omega arith) (inl (omega arith))
