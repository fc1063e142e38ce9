-- ===== src/Number/Signed.antt =====
-- `itoa` of src/lib/stdlib.c writes the digits of its number and its sign.
use mathlib.Core.Path.{subst}
use potatos.Base.{
  ℕ, suc, ◌+◌, ◌-◌, ◌^◌, ◌≤◌, ◌<◌, ◌≡◌, ◌≢◌, ◌⊎◌, refl, sym, Bool, true, false, ◌==◌, if◌then◌else◌,
  arith, inl, inr, List, ◌∷◌, All, length, Option, some, u32, Memory, write8,
}
use potatos.Text.Copy.{within}
use potatos.Text.Strings.{IsString}
use potatos.Number.{is_minus, magnitude, itoa_loop, finish, itoa}
use potatos.Number.Digits.{IsTrim, parse}
use potatos.Number.Rounds.{written, written-write8, IsWritten, itoa_loop_lem}
use potatos.Number.Reverse.{reverse_lem}
use potatos.Number.Text64.{length-taken}

-- The digits of the value, with lower case letters and no zero in front, stand as a string at `a`, 32
-- of them at most, behind a minus sign for a negative number, and no byte outside the string and one
-- behind it has changed.
pub record IsSigned (base : ℕ) (minus : Bool) (value a : ℕ) (m m' : Memory) : Type 0 where
  pub digits : List ℕ
  pub string : IsString m' a (if minus then 45 ∷ digits else digits)
  pub number : parse base 97 0 digits ≡ some value
  pub trim : IsTrim digits
  pub short : length digits ≤ 32
  pub elsewhere : (x : ℕ) → within a (length digits + 2) x ≡ false → m' x ≡ m x

plain_finish :
    (fuel value n str base : ℕ) (m m1 : Memory)
    → 34 < fuel
    → IsWritten 32 0 value str base m n m1
    → (m' : Memory) × (finish fuel false n str m1 ≡ some m') × IsSigned base false value str m m'
unfolding finish
plain_finish fuel value n str base m m1 enough w =
    let ended = write8 m1 (str + n) 0 in
    let same = written-write8 n str n 0 m1 (omega arith) in
    let size = length-taken (λ k. m1 (str + k)) n in
    let (m', runs, string, outside) =
      reverse_lem fuel n str ended (omega (arith, w.most)) (rw same w.nonzero) (ground arith) in
    (
      m',
      runs,
      record {
        digits = written m1 str n;
        string = rw same at string;
        number = w.number;
        trim = w.trim (inr refl);
        short = omega (arith, size, w.most);
        elsewhere = λ x out. ground (arith, size, outside x, w.elsewhere x);
      },
    )

minus_finish :
    (fuel value n str base : ℕ) (m m1 : Memory)
    → 34 < fuel
    → IsWritten 32 0 value str base m n m1
    → (m' : Memory) × (finish fuel true n str m1 ≡ some m') × IsSigned base true value str m m'
unfolding finish
minus_finish fuel value n str base m m1 enough w =
    let signed = write8 m1 (str + n) 45 in
    let ended = write8 signed (str + (n + 1)) 0 in
    let same : written ended str (suc n) ≡ 45 ∷ written m1 str n =
      ground (arith, written-write8 n str (n + 1) 0 signed, written-write8 n str n 45 m1) in
    let size = length-taken (λ k. m1 (str + k)) n in
    let (m', runs, string, outside) =
      reverse_lem fuel (suc n) str ended (omega (arith, w.most))
        (subst (All (λ c. c ≢ 0)) (sym same) (ground arith, w.nonzero)) (ground arith) in
    (
      m',
      runs,
      record {
        digits = written m1 str n;
        string = subst (IsString m' str) same string;
        number = w.number;
        trim = w.trim (inr refl);
        short = omega (arith, size, w.most);
        elsewhere = λ x out. ground (arith, size, outside x, w.elsewhere x);
      },
    )

itoa_minus :
    (fuel value str base n : ℕ) (m m1 : Memory) (r : Option Memory)
    → value < 2 ^ 32
    → base ≡ 10
    → 2 ^ 31 < value
    → itoa_loop fuel false (2 ^ 32 - value) 0 str base m ≡ some (n, m1)
    → finish fuel true n str m1 ≡ r
    → itoa fuel value str base m ≡ r
unfolding itoa
itoa_minus fuel value str base n m m1 r small ten below runs ends =
    let minus : is_minus value ≡ true = ground arith in
    let decimal : (base == 10) ≡ true = ground arith in
    let wraps : u32 (2 ^ 32 - value) ≡ 2 ^ 32 - value = omega arith in
    let plus : is_minus (2 ^ 32 - value) ≡ false = ground arith in
    rw (itoa, minus, decimal, wraps, plus, runs, minus, decimal) ends

-- `itoa` of an `int` other than the smallest one returns, with fuel for 34 characters, if the number
-- is not negative and the base is from 2 to 16, or the base is 10: a string stands at `str` that is
-- the number's digits in that base, 32 at most, behind a minus sign if it is negative, each digit one of
-- '0' to '9' and 'a' to 'f' and of the base, the first one not 0 unless it is the only one, and no byte
-- outside the string and one behind it has changed.
pub itoa_lem :
    (fuel value str base : ℕ) (m : Memory)
    → 34 < fuel
    → 2 ≤ base
    → base ≤ 16
    → value < 2 ^ 32
    → (value < 2 ^ 31) ⊎ ((base ≡ 10) × (2 ^ 31 < value))
    → (m' : Memory) × (itoa fuel value str base m ≡ some m')
      × IsSigned base (is_minus value) (magnitude value) str m m'
unfolding itoa
itoa_lem fuel value str base m enough lo hi small kind = elim kind [
  | inl positive ↦
      let plus : is_minus value ≡ false = ground arith in
      let (n, m1, runs, w) =
        itoa_loop_lem fuel 31 0 value str base m lo hi (omega arith) (omega arith) tt in
      let (m', ends, signed) = plain_finish fuel value n str base m m1 enough w in
      (m', rw (itoa, plus, plus, runs, plus) ends, rw plus signed)
  | inr negative ↦
      let minus : is_minus value ≡ true = ground arith in
      let (n, m1, runs, w) =
        itoa_loop_lem fuel 31 0 (2 ^ 32 - value) str base m lo hi (omega arith) (omega arith) tt in
      let (m', ends, signed) = minus_finish fuel (2 ^ 32 - value) n str base m m1 enough w in
      (
        m',
        itoa_minus fuel value str base n m m1 (some m') small negative.0 negative.1 runs ends,
        rw minus signed,
      )
]
