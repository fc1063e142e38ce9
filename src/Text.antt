-- ===== src/Text.antt =====
-- src/lib/string.c: strings and blocks of bytes in memory.
pub mod Copy
pub mod Strings
pub mod Move
mod Tests
use mathlib.Core.Option
use potatos.Base.{ℕ, zero, suc, ◌+◌, ◌==◌, Option, none, some, if◌then◌else◌, u8, Memory, write8}

-- The loop of `strlen` at index `i`.
pub strlen_loop : (fuel i : ℕ) → Memory → ℕ → Option ℕ
strlen_loop zero i m str = none
strlen_loop (suc fuel) i m str =
    let rest = strlen_loop fuel (i + 1) m str in if m (str + i) == 0 then some i else rest

pub strlen : (fuel : ℕ) → Memory → ℕ → Option ℕ
unfolding strlen_loop
strlen fuel m str = strlen_loop fuel 0 m str

-- The loop `d[i] = s[i]` at index `i`, with `left` rounds to go.
pub copy_loop : (left i d s : ℕ) → Memory → Memory
copy_loop zero i d s m = m
copy_loop (suc left) i d s m = copy_loop left (i + 1) d s (write8 m (d + i) (m (s + i)))

pub memcpy : (destination source num : ℕ) → Memory → Memory
unfolding copy_loop
memcpy destination source num m = copy_loop num 0 destination source m

pub strcpy : (fuel destination source : ℕ) → Memory → Option Memory
unfolding strlen copy_loop
strcpy fuel destination source m =
    Option.map (λ len. write8 (copy_loop len 0 destination source m) (destination + len) 0)
      (strlen fuel m source)

pub set_loop : (left i destination value : ℕ) → Memory → Memory
set_loop zero i destination value m = m
set_loop (suc left) i destination value m =
    set_loop left (i + 1) destination value (write8 m (destination + i) (u8 value))

-- `value` is an `int`, as its bit pattern.
pub memset : (ptr value num : ℕ) → Memory → Memory
unfolding set_loop
memset ptr value num m = set_loop num 0 ptr value m
