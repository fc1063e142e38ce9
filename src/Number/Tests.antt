-- ===== src/Number/Tests.antt =====
-- src/lib/stdlib.c at concrete numbers.
use potatos.Base.{◌≡◌, refl, arith, true, inr, [], ◌∷◌, none, some, Memory}
use potatos.Number.{itoa64, itoa}
use potatos.Number.Signed.{IsSigned, itoa_lem}
use potatos.Number.Digits.{parse}
use potatos.Number.Text64.{IsNumeral, itoa64_lem}

abbrev blank : Memory
blank a = 0

parse_hex : parse 16 65 0 (66 ∷ 69 ∷ 69 ∷ 70 ∷ []) ≡ some 48879
parse_hex = refl

-- A space is no digit, and neither is 'C' in base 10.
parse_no_digit : (parse 10 65 0 (32 ∷ []) ≡ none) × (parse 10 65 0 (67 ∷ []) ≡ none)
parse_no_digit = (refl, refl)

itoa64_lem_example :
    (m' : Memory) × (itoa64 5 blank 48879 100 16 blank ≡ some m')
    × IsNumeral 4 16 48879 100 blank m'
itoa64_lem_example =
    itoa64_lem 4 5 blank 48879 100 16 blank (omega arith) (omega arith) (omega arith) (omega arith)
      (omega arith) (omega arith)

-- -48879 as an `int`.
itoa_lem_example :
    (m' : Memory) × (itoa 35 4294918417 100 10 blank ≡ some m')
    × IsSigned 10 true 48879 100 blank m'
itoa_lem_example =
    itoa_lem 35 4294918417 100 10 blank (omega arith) (omega arith) (omega arith) (omega arith)
      (inr (refl, omega arith))
