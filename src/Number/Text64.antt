-- ===== src/Number/Text64.antt =====
-- `itoa64` of src/lib/stdlib.c writes the digits of its number.
use potatos.Base.{
  ℕ, zero, suc, ◌+◌, ◌^◌, ◌≤◌, ◌<◌, ◌≡◌, ◌≢◌, refl, ap, ◌∙◌, arith, true, false, ◌==◌, Bool-cases,
  inl, inr, List, [], ◌∷◌, All, length, some, Memory, write8,
}
use potatos.Text.Copy.{within}
use potatos.Text.Strings.{IsString}
use potatos.Number.{copy_back, itoa64}
use potatos.Number.Digits.{parse, IsTrim, taken, IsDigits, digits_loop_lem}

pub length-taken : (temp : Memory) (n : ℕ) → length (taken temp n) ≡ n
length-taken temp zero = refl
length-taken temp (suc n) = ap suc (length-taken temp n)

-- What the second loop leaves: the digits in the order in which they are read.
pub copy_back_lem :
    (i j : ℕ) (temp : Memory) (buffer a : ℕ) (m : Memory)
    → buffer + j ≡ a
    → All (λ c. c ≢ 0) (taken temp i)
    → ((copy_back i j temp buffer m).0 ≡ j + i)
      × ((x : ℕ) → within a i x ≡ false → (copy_back i j temp buffer m).1 x ≡ m x)
      × ((m' : Memory)
          → ((x : ℕ) → within a i x ≡ true → m' x ≡ (copy_back i j temp buffer m).1 x)
          → m' (a + i) ≡ 0
          → IsString m' a (taken temp i))
unfolding copy_back
copy_back_lem zero j temp buffer a m at chars =
    (omega arith, λ x h. refl, λ m' same end. ap m' (omega arith) ∙ end)
copy_back_lem (suc i) j temp buffer a m at chars =
    let rest =
      copy_back_lem i (j + 1) temp buffer (a + 1) (write8 m (buffer + j) (temp i)) (omega arith)
        chars.1 in
    (
      rest.0 ∙ omega arith,
      λ x out. ground (arith, rest.1 x),
      λ m' same end. (
        ground (arith, same a, rest.1 a),
        chars.0,
        rest.2 m' (λ x h. same x (ground arith)) (ap m' (omega arith) ∙ end),
      ),
    )

-- The digits of the value, with upper case letters and no zero in front, stand as a string at `a`, `k`
-- of them at most, and no byte outside the string has changed.
pub record IsNumeral (k base value a : ℕ) (m m' : Memory) : Type 0 where
  pub text : List ℕ
  pub string : IsString m' a text
  pub number : parse base 65 0 text ≡ some value
  pub trim : IsTrim text
  pub short : length text ≤ k
  pub elsewhere : (x : ℕ) → within a (length text + 1) x ≡ false → m' x ≡ m x

zero-IsNumeral :
    (k base value buffer : ℕ) (m : Memory)
    → 1 ≤ k
    → 2 ≤ base
    → value ≡ 0
    → IsNumeral k base value buffer m (write8 (write8 m buffer 48) (buffer + 1) 0)
zero-IsNumeral k base value buffer m some_digit lo z = record {
  text = 48 ∷ [];
  string = (ground arith, ground arith, ground arith);
  number = ground arith;
  trim = inr refl;
  short = omega arith;
  elsewhere = λ x out. ground arith;
}

digits-IsNumeral :
    (k base value buffer n : ℕ) (temp t m : Memory)
    → value ≢ 0
    → IsDigits k 0 value base temp n t
    → IsNumeral k base value buffer m
        (write8 (copy_back n 0 t buffer m).1 (buffer + (copy_back n 0 t buffer m).0) 0)
digits-IsNumeral k base value buffer n temp t m nonzero d =
    let copied = copy_back_lem n 0 t buffer buffer m (omega arith) d.nonzero in
    let size = length-taken t n in
    let m' = write8 (copy_back n 0 t buffer m).1 (buffer + (copy_back n 0 t buffer m).0) 0 in
    record {
      text = taken t n;
      string = copied.2 m' (λ x h. ground (arith, copied.0)) (ground (arith, copied.0));
      number = d.number;
      trim = d.trim (inl nonzero);
      short = omega (arith, size, d.most);
      elsewhere = λ x out. ground (arith, copied.0, copied.1 x, size);
    }

-- `itoa64` to a base from 2 to 16 of a number below base ^ k, for k from 1 to 64, returns, with fuel
-- for k digits: the number's digits in that base stand as a string in the buffer, k of them at most,
-- each one of '0' to '9' and 'A' to 'F' and a digit of the base, the first one not 0 unless it is the
-- only one, and no byte outside the string has changed.
pub itoa64_lem :
    (k fuel : ℕ) (temp : Memory) (value buffer base : ℕ) (m : Memory)
    → 1 ≤ k
    → k ≤ 64
    → k < fuel
    → value < base ^ k
    → 2 ≤ base
    → base ≤ 16
    → (m' : Memory) × (itoa64 fuel temp value buffer base m ≡ some m')
      × IsNumeral k base value buffer m m'
unfolding itoa64
itoa64_lem k fuel temp value buffer base m some_digit room enough small lo hi =
    elim (Bool-cases (value == 0)) [
      | inl z ↦ (
        write8 (write8 m buffer 48) (buffer + 1) 0,
        rw (itoa64, z) refl,
        zero-IsNumeral k base value buffer m some_digit lo (ground (arith, z)),
      )
      | inr nz ↦
          let (n, t, runs, d) = digits_loop_lem fuel k 0 value base temp lo hi small enough tt in
          (
            write8 (copy_back n 0 t buffer m).1 (buffer + (copy_back n 0 t buffer m).0) 0,
            rw (itoa64, nz, runs) refl,
            digits-IsNumeral k base value buffer n temp t m (ground (arith, nz)) d,
          )
    ]
