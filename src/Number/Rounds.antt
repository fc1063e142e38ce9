-- ===== src/Number/Rounds.antt =====
-- The loop of `itoa` of src/lib/stdlib.c writes digits, the lowest first.
use native.Mathlib.Nat.{mod-lt, div-add-mod'}
use potatos.Base.{
  ℕ, zero, suc, ◌+◌, ◌*◌, ◌/◌, ◌%◌, ◌^◌, ◌≤◌, ◌<◌, ◌≡◌, ◌≢◌, ◌⊎◌, refl, sym, ap, ◌∙◌, true, false,
  ◌==◌, arith, Bool-cases, inl, inr, List, ◌∷◌, All, some, Memory, write8,
}
use potatos.Text.Copy.{within}
use potatos.Number.{digit_char, itoa_loop}
use potatos.Number.Digits.{IsDigitOf, IsTrim, parse, parse-cons, next-IsTrim, taken, quotient_small}

digit_char_lem : (base r : ℕ) → r < base → base ≤ 16 → IsDigitOf base 97 r (digit_char false r)
digit_char_lem base r h hi = record {
  value = ground arith;
  nonzero = ground arith;
  trim = λ e. ground arith;
}

-- The first `n` characters at `str`, the last one first.
abbrev pub written : Memory → ℕ → ℕ → List ℕ
written m str n = taken (λ k. m (str + k)) n

pub written-write8 :
    (n str i v : ℕ) (m : Memory) → n ≤ i → written (write8 m (str + i) v) str n ≡ written m str n
written-write8 zero str i v m h = refl
written-write8 (suc n) str i v m h = ground (arith, written-write8 n str i v m)

-- What the loop returns from `value` with `i` digits written.
pub record IsWritten (k i value str base : ℕ) (m : Memory) (n : ℕ) (m' : Memory) : Type 0 where
  pub number : parse base 97 0 (written m' str n) ≡ parse base 97 value (written m str i)
  pub trim : (value ≢ 0) ⊎ (i ≡ 0) → IsTrim (written m' str n)
  pub most : n ≤ i + k
  pub least : i + 1 ≤ n
  pub nonzero : All (λ c. c ≢ 0) (written m' str n)
  pub elsewhere : (x : ℕ) → within str n x ≡ false → m' x ≡ m x

-- What one round leaves.
record IsRound (i value str base : ℕ) (m m' : Memory) : Type 0 where
  number :
      parse base 97 (value / base) (written m' str (i + 1)) ≡ parse base 97 value (written m str i)
  trim : (value ≢ 0) ⊎ (i ≡ 0) → (value / base ≢ 0) ⊎ IsTrim (written m' str (i + 1))
  nonzero : All (λ c. c ≢ 0) (written m' str (i + 1))
  elsewhere : (x : ℕ) → within str (i + 1) x ≡ false → m' x ≡ m x

round_lem :
    (i value str base : ℕ) (m : Memory)
    → 2 ≤ base
    → base ≤ 16
    → All (λ c. c ≢ 0) (written m str i)
    → IsRound i value str base m (write8 m (str + i) (digit_char false (value % base)))
round_lem i value str base m lo hi chars =
    let rest : value % base < base = mod-lt value (omega arith) in
    let c = digit_char false (value % base) in
    let digit = digit_char_lem base (value % base) rest hi in
    let m' = write8 m (str + i) c in
    let below = written-write8 i str i c m (omega arith) in
    let one_more : written m' str (i + 1) ≡ c ∷ written m str i = ground (arith, below) in
    let whole : value / base * base + value % base ≡ value =
      omega (arith, div-add-mod' value base) in
    record {
      number =
          ap (parse base 97 (value / base)) one_more
          ∙ parse-cons base 97 (value / base) c _ (written m str i) digit.value
          ∙ ap (λ v. parse base 97 v (written m str i)) whole;
      trim = λ e. elim e [
        | inl nonzero ↦ next-IsTrim value base c (written m str i) _ one_more nonzero digit.trim
        | inr first ↦ inr (rw one_more (inr (ap (written m str) first)))
      ];
      nonzero = rw one_more (digit.nonzero, chars);
      elsewhere = λ x out. ground arith;
    }

last_round :
    (k i value str base : ℕ) (m : Memory) (m' : Memory)
    → IsRound i value str base m m'
    → (value / base == 0) ≡ true
    → IsWritten (suc k) i value str base m (i + 1) m'
last_round k i value str base m m' r done =
    let zero_left : 0 ≡ value / base = ground arith in
    record {
      number = ap (λ v. parse base 97 v (written m' str (i + 1))) zero_left ∙ r.number;
      trim = λ e. elim (r.trim e) [ inl more ↦ absurd (more (sym zero_left)) | inr trim ↦ trim ];
      most = omega arith;
      least = omega arith;
      nonzero = r.nonzero;
      elsewhere = r.elsewhere;
    }

pub itoa_loop_lem :
    (fuel k i value str base : ℕ) (m : Memory)
    → 2 ≤ base
    → base ≤ 16
    → value < 2 ^ suc k
    → k < fuel
    → All (λ c. c ≢ 0) (written m str i)
    → (n : ℕ) × (m' : Memory) × (itoa_loop fuel false value i str base m ≡ some (n, m'))
      × IsWritten (suc k) i value str base m n m'
unfolding itoa_loop
itoa_loop_lem zero k i value str base m lo hi small enough chars = absurd (omega arith)
itoa_loop_lem (suc fuel) zero i value str base m lo hi small enough chars =
    let r = round_lem i value str base m lo hi chars in
    let none_left = quotient_small value base 0 lo small in
    let done : (value / base == 0) ≡ true = ground arith in
    (i + 1, _, rw (itoa_loop, done) refl, last_round 0 i value str base m _ r done)
itoa_loop_lem (suc fuel) (suc k) i value str base m lo hi small enough chars =
    let r = round_lem i value str base m lo hi chars in
    let m1 = write8 m (str + i) (digit_char false (value % base)) in
    elim (Bool-cases (value / base == 0)) [
      | inl done ↦
          (i + 1, m1, rw (itoa_loop, done) refl, last_round (suc k) i value str base m m1 r done)
      | inr more ↦
          let (n, m', runs, w) =
            itoa_loop_lem fuel k (i + 1) (value / base) str base m1 lo hi
              (quotient_small value base (suc k) lo small) (omega arith) r.nonzero in
          (
            n,
            m',
            rw (itoa_loop, more) runs,
            record {
              number = w.number ∙ r.number;
              trim = λ e. w.trim (inl (λ z. ground (arith, more)));
              most = omega (arith, w.most);
              least = omega (arith, w.least);
              nonzero = w.nonzero;
              elsewhere = λ x out. ground (arith, w.elsewhere x, r.elsewhere x, w.least);
            },
          )
    ]
