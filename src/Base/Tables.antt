-- ===== src/Base/Tables.antt =====
-- Laws of the bits of a byte, by evaluation at every byte.
use Prim.Native.Nat.{ℕ, zero, suc, ◌^◌, ◌<◌, bit_and, bit_or}
use mathlib.Core.Path.{◌≡◌, refl}
use mathlib.Core.Bool.{Bool, true, false, ◌&&◌}
use native.Mathlib.Omega.{arith}
use native.Mathlib.Decide.{dec_lt}
use potatos.Base.Tests.{◌==◌, if◌then◌else◌}
use potatos.Base.Words.{u8, not32}

-- Does the test hold at every number below a bound?
table : (ℕ → Bool) → ℕ → Bool
table test zero = true
table test (suc bound) = table test bound && test bound

table_entry : (test : ℕ → Bool) (k bound : ℕ) → k < bound → table test bound ≡ true → test k ≡ true
unfolding table
table_entry test k zero below every = absurd (omega arith)
table_entry test k (suc bound) below every = elim (dec_lt k bound) [
  | yes lower ↦ table_entry test k bound lower (ground arith)
  | no top ↦ let last : k ≡ bound = omega arith in rw last (ground arith)
]

abbrev same : Bool → Bool → Bool
same true b = b
same false true = false
same false false = true

eq_of_same : (a b : Bool) → same a b ≡ true → a ≡ b
eq_of_same a b h = ground arith

-- C's `!(x & (1 << k))`.
abbrev pub bit_clear : ℕ → ℕ → Bool
bit_clear x k = bit_and x (2 ^ k) == 0

-- `x |= 1 << k` on a byte.
abbrev pub set_bit : ℕ → ℕ → ℕ
set_bit x k = u8 (bit_or x (2 ^ k))

-- `x &= ~(1 << k)` on a byte.
abbrev pub clear_bit : ℕ → ℕ → ℕ
clear_bit x k = u8 (bit_and x (not32 (2 ^ k)))

abbrev set_entry : ℕ → ℕ → ℕ → Bool
set_entry x k j = same (bit_clear (set_bit x k) j) (if k == j then false else bit_clear x j)

abbrev clear_entry : ℕ → ℕ → ℕ → Bool
clear_entry x k j = same (bit_clear (clear_bit x k) j) (if k == j then true else bit_clear x j)

-- A law of a byte and two of its bits.
abbrev every_byte : (ℕ → ℕ → ℕ → Bool) → Bool
every_byte law = table (λ x. table (λ k. table (law x k) 8) 8) 256

set_table : every_byte set_entry ≡ true
unfolding table
set_table = refl

clear_table : every_byte clear_entry ≡ true
unfolding table
clear_table = refl

module _ {x k j : ℕ} (hx : x < 256) (hk : k < 8) (hj : j < 8) where
  byte_entry : (law : ℕ → ℕ → ℕ → Bool) → every_byte law ≡ true → law x k j ≡ true
  byte_entry law every = table_entry (law x k) j 8 hj (
      table_entry (λ k. table (law x k) 8) k 8 hk
        (table_entry (λ x. table (λ k. table (law x k) 8) 8) x 256 hx every))

  pub bit_clear-set_bit : bit_clear (set_bit x k) j ≡ (if k == j then false else bit_clear x j)
  bit_clear-set_bit = eq_of_same _ _ (byte_entry set_entry set_table)

  pub bit_clear-clear_bit : bit_clear (clear_bit x k) j ≡ (if k == j then true else bit_clear x j)
  bit_clear-clear_bit = eq_of_same _ _ (byte_entry clear_entry clear_table)

pub zero-bit_clear : (k : ℕ) → k < 8 → bit_clear 0 k ≡ true
unfolding table
zero-bit_clear k h = table_entry (λ k. bit_clear 0 k) k 8 h refl
