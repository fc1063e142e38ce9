-- ===== src/Base/Words.antt =====
-- The fixed widths of types.h, with the wrap-around written out.
use Prim.Native.Nat.{ℕ, ◌+◌, ◌-◌, ◌%◌, ◌^◌}
use mathlib.Core.Bool.{Bool}
use potatos.Base.Tests.{ltb, if◌then◌else◌}

abbrev pub u8 : ℕ → ℕ
u8 n = n % 2 ^ 8

abbrev pub u32 : ℕ → ℕ
u32 n = n % 2 ^ 32

abbrev pub u64 : ℕ → ℕ
u64 n = n % 2 ^ 64

-- `a - b` of `uint64_t` for `a` and `b` below 2 ^ 64.
abbrev pub sub64 : ℕ → ℕ → ℕ
sub64 a b = u64 (a + 2 ^ 64 - b)

-- `~n` of an `int` as a bit pattern.
abbrev pub not32 : ℕ → ℕ
not32 n = 2 ^ 32 - 1 - n

-- A `uint64_t` cut to `int` and used as an array index: cut to 32 bits and sign-extended to 64.
abbrev pub int_index : ℕ → ℕ
int_index n = let w = u32 n in if ltb w (2 ^ 31) then w else w + (2 ^ 64 - 2 ^ 32)

abbrev pub page_size : ℕ
page_size = 4096

abbrev pub u16 : ℕ → ℕ
u16 n = n % 2 ^ 16

-- An `int16_t`, as its bit pattern, widened to `int`.
abbrev pub widen16 : ℕ → ℕ
widen16 n = if ltb n (2 ^ 15) then n else n + (2 ^ 32 - 2 ^ 16)

-- `a - b` of `int` or `uint32_t`, for `b` below 2 ^ 32.
abbrev pub sub32 : ℕ → ℕ → ℕ
sub32 a b = u32 (a + (2 ^ 32 - b))

-- `a < b` of `int`, on bit patterns.
abbrev pub int_lt : ℕ → ℕ → Bool
int_lt a b = ltb (u32 (a + 2 ^ 31)) (u32 (b + 2 ^ 31))

-- The rounds of `for (int i = 0; i < n; i++)`.
abbrev pub int_rounds : ℕ → ℕ
int_rounds n = if int_lt 0 n then n else 0
