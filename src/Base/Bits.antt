-- ===== src/Base/Bits.antt =====
-- `&` and `|` of words of any width: both work on the two halves of a word at every cut, so that a
-- mask of low or of high bits is a remainder or a multiple, and `|` of disjoint fields is a sum.
use Prim.Native.Nat.{
  ℕ, zero, suc, ◌+◌, ◌-◌, ◌*◌, ◌/◌, ◌%◌, ◌^◌, ◌≤◌, ◌<◌, min, max, bit_and, bit_or, digits, bitwise,
  bit_and-bitwise, bit_or-bitwise,
}
use mathlib.Core.Path.{◌≡◌, refl, ap, sym}
use native.Mathlib.Omega.{arith}
use native.Mathlib.Nat.{pow-suc, one-le-pow, mod-lt, div-add-mod'}

-- A bitwise operation `f` with what it makes of 0 on its left.
module _ (left_zero : ℕ → ℕ) (f : ℕ → ℕ → ℕ) where
  -- Fuel beyond the first operand does not matter.
  enough : (n d a b : ℕ) → a ≤ n → digits left_zero f (n + d) a b ≡ digits left_zero f n a b
  enough n d zero b h = both n (n + d)
    where
      both : (n m : ℕ) → digits left_zero f m 0 b ≡ digits left_zero f n 0 b
      both zero zero = refl
      both zero (suc m) = refl
      both (suc n) zero = refl
      both (suc n) (suc m) = refl
  enough zero d (suc a) b h = absurd (omega arith)
  enough (suc n) d (suc a) b h =
      let e : suc n + d ≡ suc (n + d) = omega arith in
      rw (e, enough n d (suc a / 2) (b / 2) (omega arith))

  last_digit :
      (a b : ℕ)
      → bitwise left_zero f (suc a) b
        ≡ bitwise left_zero f (suc a / 2) (b / 2) * 2 + f (suc a % 2) (b % 2)
  last_digit a b =
      let e : a ≡ suc a / 2 + (a - suc a / 2) = omega arith in
      let rest = enough (suc a / 2) (a - suc a / 2) (suc a / 2) (b / 2) (omega arith) in
      ap (λ t. t * 2 + f (suc a % 2) (b % 2)) (rw (← e) at rest)

bit_and_digit : (a b : ℕ) → bit_and a b ≡ bit_and (a / 2) (b / 2) * 2 + min (a % 2) (b % 2)
bit_and_digit zero b = omega (arith, bit_and-bitwise 0 b, bit_and-bitwise 0 (b / 2))
bit_and_digit (suc a) b = simp bit_and-bitwise (last_digit (λ y. 0) min a b)

bit_or_digit : (a b : ℕ) → bit_or a b ≡ bit_or (a / 2) (b / 2) * 2 + max (a % 2) (b % 2)
bit_or_digit zero b = omega (arith, bit_or-bitwise 0 b, bit_or-bitwise 0 (b / 2))
bit_or_digit (suc a) b = simp bit_or-bitwise (last_digit (λ y. y) max a b)

double : (q k : ℕ) → q * 2 ^ suc k ≡ q * 2 ^ k * 2
double q k = omega (arith, ap (λ (t : ℕ). q * t) (pow-suc 2 k))

-- Both operations work on the high and the low parts apart, wherever the words are cut.
pub bit_and_parts :
    (k q s r t : ℕ)
    → r < 2 ^ k
    → t < 2 ^ k
    → bit_and (q * 2 ^ k + r) (s * 2 ^ k + t) ≡ bit_and q s * 2 ^ k + bit_and r t
bit_and_parts zero q s r t hr ht = ground arith
bit_and_parts (suc k) q s r t hr ht = ground (
  arith,
  double q k,
  double s k,
  double (bit_and q s) k,
  bit_and_digit (q * 2 ^ suc k + r) (s * 2 ^ suc k + t),
  bit_and_digit r t,
  bit_and_parts k q s (r / 2) (t / 2) (omega (arith, pow-suc 2 k)) (omega (arith, pow-suc 2 k)),
)

pub bit_or_parts :
    (k q s r t : ℕ)
    → r < 2 ^ k
    → t < 2 ^ k
    → bit_or (q * 2 ^ k + r) (s * 2 ^ k + t) ≡ bit_or q s * 2 ^ k + bit_or r t
bit_or_parts zero q s r t hr ht = ground arith
bit_or_parts (suc k) q s r t hr ht = ground (
  arith,
  double q k,
  double s k,
  double (bit_or q s) k,
  bit_or_digit (q * 2 ^ suc k + r) (s * 2 ^ suc k + t),
  bit_or_digit r t,
  bit_or_parts k q s (r / 2) (t / 2) (omega (arith, pow-suc 2 k)) (omega (arith, pow-suc 2 k)),
)

-- The units, by halving.
halve {ℓ} : (P : ℕ → Type ℓ) → P 0 → ((a : ℕ) → P (suc a / 2) → P (suc a)) → (n a : ℕ) → a ≤ n → P a
halve P base step n zero h = base
halve P base step zero (suc a) h = absurd (omega arith)
halve P base step (suc n) (suc a) h = step a (halve P base step n (suc a / 2) (omega arith))

pub bit_and-zero : (a : ℕ) → bit_and a 0 ≡ 0
bit_and-zero a =
    halve (λ n. bit_and n 0 ≡ 0) refl (λ n ih. omega (arith, bit_and_digit (suc n) 0, ih)) a a
      (omega arith)

pub bit_or-zero : (a : ℕ) → bit_or a 0 ≡ a
bit_or-zero a =
    halve (λ n. bit_or n 0 ≡ n) refl (λ n ih. omega (arith, bit_or_digit (suc n) 0, ih)) a a
      (omega arith)

pub zero-bit_or : (a : ℕ) → bit_or 0 a ≡ a
zero-bit_or a = bit_or-bitwise 0 a

pub zero-bit_and : (a : ℕ) → bit_and 0 a ≡ 0
zero-bit_and a = bit_and-bitwise 0 a

bit_and-ones_small : (k r : ℕ) → r < 2 ^ k → bit_and r (2 ^ k - 1) ≡ r
bit_and-ones_small zero r h = omega (arith, bit_and-zero r)
bit_and-ones_small (suc k) r h = ground (
  arith,
  one-le-pow k 2,
  pow-suc 2 k,
  bit_and_digit r (2 ^ suc k - 1),
  bit_and-ones_small k (r / 2) (omega (arith, pow-suc 2 k)),
)

-- The mask of the `k` low bits is the remainder.
pub bit_and-ones : (k a : ℕ) → bit_and a (2 ^ k - 1) ≡ a % 2 ^ k
bit_and-ones k a =
    let pos = one-le-pow k 2 (omega arith) in
    let small : a % 2 ^ k < 2 ^ k = mod-lt a pos in
    let cut : a ≡ a / 2 ^ k * 2 ^ k + a % 2 ^ k = sym (div-add-mod' a (2 ^ k)) in
    let parts = bit_and_parts k (a / 2 ^ k) 0 (a % 2 ^ k) (2 ^ k - 1) small (omega arith) in
    let zero_part : 0 * 2 ^ k + (2 ^ k - 1) ≡ 2 ^ k - 1 = omega arith in
    ground (
      arith,
      parts,
      cut,
      zero_part,
      bit_and-zero (a / 2 ^ k),
      bit_and-ones_small k (a % 2 ^ k) small,
    )

-- The mask of a 64-bit word without its 12 low bits, `~0xFFF`.
pub bit_and-page_mask : (a : ℕ) → a < 2 ^ 64 → bit_and a (2 ^ 64 - 4096) ≡ a / 4096 * 4096
bit_and-page_mask a h =
    let parts = bit_and_parts 12 (a / 4096) (2 ^ 52 - 1) (a % 4096) 0 (omega arith) (omega arith) in
    let cut : a / 4096 * 2 ^ 12 + a % 4096 ≡ a = omega arith in
    let whole = rw cut at parts in
    omega (arith, whole, bit_and-zero (a % 4096), bit_and-ones 52 (a / 4096))

-- `|` of a multiple of `2 ^ k` and a word of `k` bits is their sum.
pub bit_or-fields : (k q r : ℕ) → r < 2 ^ k → bit_or (q * 2 ^ k) r ≡ q * 2 ^ k + r
bit_or-fields k q r h =
    let parts = bit_or_parts k q 0 0 r (omega arith) h in
    let left : q * 2 ^ k + 0 ≡ q * 2 ^ k = omega arith in
    let right : 0 * 2 ^ k + r ≡ r = omega arith in
    ground (arith, parts, left, right, bit_or-zero q, zero-bit_or r)
