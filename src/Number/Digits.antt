-- ===== src/Number/Digits.antt =====
-- The first loop of `itoa64` of src/lib/stdlib.c leaves the digits, the lowest first.
use potatos.Base.{
  ℕ, zero, suc, ◌+◌, ◌-◌, ◌*◌, ◌/◌, ◌%◌, ◌^◌, ◌≤◌, ◌<◌, ◌≡◌, ◌≢◌, ◌⊎◌, refl, sym, ap, ◌∙◌, arith,
  true, ◌==◌, ltb, leb, ◌&&◌, if◌then◌else◌, Bool-cases, inl, inr, List, [], ◌∷◌, All, Option, none,
  some, Memory, write8,
}
use native.Mathlib.Nat.{pow-suc, pow-zero, mod-lt, div-mul-le_self, div-add-mod', mul-le-mul_left}
use potatos.Number.{digits, char_at, digits_loop}

-- The value of a digit of the base: '0' to '9', then the letters from `ten` on, 'A' or 'a'. No other
-- character is a digit.
abbrev pub digit_value : (base ten c : ℕ) → Option ℕ
digit_value base ten c =
    if leb 48 c && ltb c 58 && ltb c (48 + base)
    then some (c - 48)
    else if leb ten c && ltb (c + 10) (ten + base)
    then some (c + 10 - ten)
    else none

-- The number that the digits denote, read from left to right behind a number that is read already;
-- `none` if one of the characters is not a digit of the base.
abbrev pub parse : (base ten so_far : ℕ) → List ℕ → Option ℕ
parse base ten so_far [] = some so_far
parse base ten so_far (x ∷ xs) = elim (digit_value base ten x) [
  | none ↦ none
  | some d ↦ parse base ten (so_far * base + d) xs
]

-- A text that is not empty and has no zero in front of other digits.
abbrev pub IsTrim : List ℕ → Type 0
IsTrim [] = zero ≡ suc zero
IsTrim (x ∷ xs) = (x ≢ 48) ⊎ (xs ≡ [])

-- The first `n` bytes, the last one first.
abbrev pub taken : Memory → ℕ → List ℕ
taken temp zero = []
taken temp (suc n) = temp n ∷ taken temp n

-- The characters of `itoa64` are the digits, with upper case letters.
pub record IsDigitOf (base ten r c : ℕ) : Type 0 where
  pub value : digit_value base ten c ≡ some r
  pub nonzero : c ≢ 0
  pub trim : r ≢ 0 → c ≢ 48

char_at-digits : (base r : ℕ) → r < base → base ≤ 16 → IsDigitOf base 65 r (char_at digits r)
char_at-digits base r h hi = record {
  value = ground arith;
  nonzero = ground arith;
  trim = λ e. ground arith;
}

taken-write8 : (n i v : ℕ) (temp : Memory) → n ≤ i → taken (write8 temp i v) n ≡ taken temp n
taken-write8 zero i v temp h = refl
taken-write8 (suc n) i v temp h = ground (arith, taken-write8 n i v temp)

-- What the loop returns from `value` with `i` digits in `temp`.
pub record IsDigits (k i value base : ℕ) (temp : Memory) (n : ℕ) (temp' : Memory) : Type 0 where
  pub number : parse base 65 0 (taken temp' n) ≡ parse base 65 value (taken temp i)
  pub most : n ≤ i + k
  pub nonzero : All (λ c. c ≢ 0) (taken temp' n)
  pub trim : (value ≢ 0) ⊎ IsTrim (taken temp i) → IsTrim (taken temp' n)

pub quotient_small : (value base k : ℕ) → 2 ≤ base → value < 2 ^ suc k → value / base < 2 ^ k
quotient_small value base k lo small =
    omega (arith, div-mul-le_self value base, mul-le-mul_left (value / base) lo, pow-suc 2 k)

quotient_below : (value base k : ℕ) → 2 ≤ base → value < base ^ suc k → value / base < base ^ k
quotient_below value base k lo small = grind (arith, pow-suc base k)

pub parse-cons :
    (base ten so_far c d : ℕ) (t : List ℕ)
    → digit_value base ten c ≡ some d
    → parse base ten so_far (c ∷ t) ≡ parse base ten (so_far * base + d) t
parse-cons base ten so_far c d t e = rw (parse, e) refl

-- The digit that a round writes is the next one to read.
push_digit :
    (i value base : ℕ) (temp : Memory)
    → digit_value base 65 (char_at digits (value % base)) ≡ some (value % base)
    → parse base 65 (value / base) (taken (write8 temp i (char_at digits (value % base))) (i + 1))
      ≡ parse base 65 value (taken temp i)
push_digit i value base temp reads =
    let temp' = write8 temp i (char_at digits (value % base)) in
    let one_more : taken temp' (i + 1) ≡ char_at digits (value % base) ∷ taken temp i =
      ground (arith, taken-write8 i i (char_at digits (value % base)) temp) in
    let whole : value / base * base + value % base ≡ value =
      omega (arith, div-add-mod' value base) in
    ap (parse base 65 (value / base)) one_more
    ∙ parse-cons base 65 (value / base) (char_at digits (value % base)) _ (taken temp i) reads
    ∙ ap (λ v. parse base 65 v (taken temp i)) whole

still-IsTrim : (value : ℕ) → value ≡ 0 → (t : List ℕ) → (value ≢ 0) ⊎ IsTrim t → IsTrim t
still-IsTrim value z t h = elim h [ inl e ↦ absurd (e z) | inr trim ↦ trim ]

-- The last digit that is written, the first to be read, is not 0.
pub next-IsTrim :
    (value base c : ℕ) (t u : List ℕ)
    → u ≡ c ∷ t
    → value ≢ 0
    → (value % base ≢ 0 → c ≢ 48)
    → (value / base ≢ 0) ⊎ IsTrim u
next-IsTrim value base c t u e nonzero digit = elim (Bool-cases (value / base == 0)) [
  | inl done ↦
      let rest : value % base ≢ 0 = λ z. nonzero (ground (arith, div-add-mod' value base)) in
      inr (rw e (inl (digit rest)))
  | inr more ↦ inl (ground (arith, more))
]

pub digits_loop_lem :
    (fuel k i value base : ℕ) (temp : Memory)
    → 2 ≤ base
    → base ≤ 16
    → value < base ^ k
    → k < fuel
    → All (λ c. c ≢ 0) (taken temp i)
    → (n : ℕ) × (temp' : Memory) × (digits_loop fuel i value base temp ≡ some (n, temp'))
      × IsDigits k i value base temp n temp'
unfolding digits_loop
digits_loop_lem zero k i value base temp lo hi small enough chars = absurd (omega arith)
digits_loop_lem (suc fuel) zero i value base temp lo hi small enough chars =
    let none_left : value ≡ 0 = omega (arith, pow-zero base) in
    let done : (value == 0) ≡ true = ground arith in
    (
      i,
      temp,
      rw (digits_loop, done) refl,
      record {
        number = ap (λ v. parse base 65 v (taken temp i)) (sym none_left);
        most = omega arith;
        nonzero = chars;
        trim = still-IsTrim value none_left (taken temp i);
      },
    )
digits_loop_lem (suc fuel) (suc k) i value base temp lo hi small enough chars =
    elim (Bool-cases (value == 0)) [
      | inl done ↦ (
        i,
        temp,
        rw (digits_loop, done) refl,
        record {
          number = ap (λ v. parse base 65 v (taken temp i)) (ground (arith, done));
          most = omega arith;
          nonzero = chars;
          trim = still-IsTrim value (ground (arith, done)) (taken temp i);
        },
      )
      | inr more ↦
          let rest : value % base < base = mod-lt value (omega arith) in
          let digit = char_at-digits base (value % base) rest hi in
          let temp' = write8 temp i (char_at digits (value % base)) in
          let below = taken-write8 i i (char_at digits (value % base)) temp (omega arith) in
          let (n, t, runs, d) =
            digits_loop_lem fuel k (i + 1) (value / base) base temp' lo hi
              (quotient_below value base k lo small) (omega arith)
              (ground (arith, below, digit.nonzero)) in
          (
            n,
            t,
            rw (digits_loop, more) runs,
            record {
              number = d.number ∙ push_digit i value base temp digit.value;
              most = omega (arith, d.most);
              nonzero = d.nonzero;
              trim = λ e. d.trim (
                  next-IsTrim value base (char_at digits (value % base)) (taken temp i) _
                    (ground (arith, below)) (ground (arith, more)) digit.trim);
            },
          )
    ]
