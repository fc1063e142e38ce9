-- ===== src/Text/Copy.antt =====
-- The loops of src/lib/string.c over `num` bytes, described byte by byte.
use potatos.Base.{
  ℕ, zero, suc, ◌+◌, ◌-◌, ◌≤◌, ◌≡◌, ◌⊎◌, Bool, ◌&&◌, arith, ltb, leb, if◌then◌else◌, u8, Memory,
  write8,
}
use potatos.Text.{copy_loop, memcpy, set_loop, memset}

-- Is `x` one of the `n` addresses from `a` on?
abbrev pub within : ℕ → ℕ → ℕ → Bool
within a n x = leb a x && ltb x (a + n)

-- A copy front to back reads no byte that it has written.
abbrev pub IsForward : (d s n : ℕ) → Type 0
IsForward d s n = (d ≤ s) ⊎ (s + n ≤ d)

pub copy_loop_lem :
    (left i d s : ℕ) (m : Memory) (x : ℕ)
    → IsForward d s (i + left)
    → copy_loop left i d s m x ≡ (if within (d + i) left x then m (s + (x - d)) else m x)
unfolding copy_loop
copy_loop_lem zero i d s m x safe = ground arith
copy_loop_lem (suc left) i d s m x safe =
    ground (arith, copy_loop_lem left (i + 1) d s (write8 m (d + i) (m (s + i))) x)

-- `memcpy` puts the bytes that the source had at the destination and changes no other byte, if the
-- source does not start in front of the destination and reach into it.
pub memcpy_lem :
    (d s n : ℕ) (m : Memory) (x : ℕ)
    → IsForward d s n
    → memcpy d s n m x ≡ (if within d n x then m (s + (x - d)) else m x)
unfolding memcpy
memcpy_lem d s n m x safe = ground (arith, copy_loop_lem n 0 d s m x)

set_loop_lem :
    (left i d value : ℕ) (m : Memory) (x : ℕ)
    → set_loop left i d value m x ≡ (if within (d + i) left x then u8 value else m x)
unfolding set_loop
set_loop_lem zero i d value m x = ground arith
set_loop_lem (suc left) i d value m x =
    ground (arith, set_loop_lem left (i + 1) d value (write8 m (d + i) (u8 value)) x)

-- `memset` sets the `num` bytes from `ptr` on to the lowest byte of `value` and changes no other byte.
pub memset_lem :
    (d value n : ℕ) (m : Memory) (x : ℕ)
    → memset d value n m x ≡ (if within d n x then u8 value else m x)
unfolding memset
memset_lem d value n m x = ground (arith, set_loop_lem n 0 d value m x)
