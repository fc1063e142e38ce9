-- ===== src/Number.antt =====
-- src/lib/stdlib.c: numbers as text. A `char` array is memory byte by byte.
pub mod Digits
pub mod Text64
pub mod Reverse
pub mod Rounds
pub mod Signed
mod Tests
use potatos.Base.{
  ℕ, zero, suc, ◌+◌, ◌-◌, ◌*◌, ◌/◌, ◌%◌, ◌^◌, Bool, true, false, ◌&&◌, Option, none, some, ◌==◌,
  ltb, leb, if◌then◌else◌, u32, List, [], ◌∷◌, Memory, write8,
}
use potatos.Text.{strlen}

-- The characters "0123456789ABCDEF".
abbrev pub digits : List ℕ
digits = 48 ∷ 49 ∷ 50 ∷ 51 ∷ 52 ∷ 53 ∷ 54 ∷ 55 ∷ 56 ∷ 57 ∷ 65 ∷ 66 ∷ 67 ∷ 68 ∷ 69 ∷ 70 ∷ []

-- `s[i]` of a string constant, which ends in a zero byte.
abbrev pub char_at : List ℕ → ℕ → ℕ
char_at [] i = 0
char_at (x ∷ xs) zero = x
char_at (x ∷ xs) (suc i) = char_at xs i

-- The first loop of `itoa64`, with `i` digits in `temp`.
pub digits_loop : (fuel i value base : ℕ) → Memory → Option (ℕ × Memory)
digits_loop zero i value base temp = none
digits_loop (suc fuel) i value base temp =
    let rest =
      digits_loop fuel (i + 1) (value / base) base
        (write8 temp i (char_at digits (value % base))) in
    if value == 0 then some (i, temp) else rest

-- The second loop of `itoa64`, with `i` digits to go; `j` is where it ends.
pub copy_back : (i j : ℕ) (temp : Memory) (buffer : ℕ) → Memory → ℕ × Memory
copy_back zero j temp buffer m = (j, m)
copy_back (suc i) j temp buffer m = copy_back i (j + 1) temp buffer (write8 m (buffer + j) (temp i))

-- `temp` is what the local array holds at first.
pub itoa64 : (fuel : ℕ) (temp : Memory) (value buffer base : ℕ) → Memory → Option Memory
unfolding digits_loop copy_back
itoa64 fuel temp value buffer base m =
    if value == 0
    then some (write8 (write8 m buffer 48) (buffer + 1) 0)
    else elim (digits_loop fuel 0 value base temp) [
      | none ↦ none
      | some (i, temp') ↦
          let (j, m') = copy_back i 0 temp' buffer m in some (write8 m' (buffer + j) 0)
    ]

-- The loop of `reverse` at the indices `i` and `j`.
pub reverse_loop : (fuel i j s : ℕ) → Memory → Option Memory
reverse_loop zero i j s m = none
reverse_loop (suc fuel) i j s m =
    let rest =
      reverse_loop fuel (i + 1) (j - 1) s
        (write8 (write8 m (s + i) (m (s + j))) (s + j) (m (s + i))) in
    if ltb i j then rest else some m

-- For the empty string `j` starts at -1 in the source and at 0 here: the loop ends at once for both.
pub reverse : (fuel s : ℕ) → Memory → Option Memory
reverse fuel s m = elim (strlen fuel m s) [
  | none ↦ none
  | some len ↦ reverse_loop fuel 0 (len - 1) s m
]

-- The sign and the magnitude of an `int`.
abbrev pub is_minus : ℕ → Bool
is_minus value = leb (2 ^ 31) value

abbrev pub magnitude : ℕ → ℕ
magnitude value = if is_minus value then 2 ^ 32 - value else value

-- The character for the remainder `rem`, or `-rem` after a division of a negative number.
abbrev pub digit_char : (minus : Bool) (rem : ℕ) → ℕ
digit_char false rem = if ltb 9 rem then rem - 10 + 97 else rem + 48
digit_char true rem = 48 - rem

-- The first loop of `itoa`, on a number by sign and magnitude; division rounds towards 0.
pub itoa_loop : (fuel : ℕ) (minus : Bool) (value i str base : ℕ) → Memory → Option (ℕ × Memory)
itoa_loop zero minus value i str base m = none
itoa_loop (suc fuel) minus value i str base m =
    let m' = write8 m (str + i) (digit_char minus (value % base)) in
    let rest = itoa_loop fuel minus (value / base) (i + 1) str base m' in
    if value / base == 0 then some (i + 1, m') else rest

-- The end of `itoa`: the sign, the final zero and the reversal.
pub finish : (fuel : ℕ) (is_negative : Bool) (i str : ℕ) → Memory → Option Memory
finish fuel is_negative i str m =
    if is_negative
    then reverse fuel str (write8 (write8 m (str + i) 45) (str + (i + 1)) 0)
    else reverse fuel str (write8 m (str + i) 0)

-- `value` is a bit pattern; `-value` wraps around.
pub itoa : (fuel value str base : ℕ) → Memory → Option Memory
itoa fuel value str base m =
    let is_negative = is_minus value && (base == 10) in
    let positive = if is_negative then u32 (2 ^ 32 - value) else value in
    elim (itoa_loop fuel (is_minus positive) (magnitude positive) 0 str base m) [
      | none ↦ none
      | some (i, m') ↦ finish fuel is_negative i str m'
    ]
