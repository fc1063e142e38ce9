-- ===== src/Base/Bytes.antt =====
-- Byte-addressed memory: a function from addresses to bytes, with little-endian words.
use Prim.Native.Nat.{ℕ, zero, suc, ◌+◌, ◌*◌, ◌/◌, ◌%◌, ◌^◌, ◌≤◌, ◌<◌}
use mathlib.Core.Path.{◌≡◌, refl}
use mathlib.Core.Logic.{◌⊎◌, inl}
use native.Mathlib.Omega.{arith}
use native.Mathlib.Nat.{pow-suc}
use potatos.Base.Tests.{◌==◌, if◌then◌else◌}

abbrev pub Memory : Type 0
Memory = ℕ → ℕ

abbrev pub IsBytes : Memory → Type 0
IsBytes m = (a : ℕ) → m a < 256

-- `m[a] = v` for a byte `v`.
abbrev pub write8 : Memory → ℕ → ℕ → Memory
write8 m a v b = if a == b then v else m b

pub write8-IsBytes : {m : Memory} {v : ℕ} (a : ℕ) → IsBytes m → v < 256 → IsBytes (write8 m a v)
write8-IsBytes a h hv b = ground (arith, h b)

-- The little-endian number in the `n` bytes from `a` on.
unfoldable pub read_bytes : ℕ → Memory → ℕ → ℕ
read_bytes zero m a = 0
read_bytes (suc n) m a = m a + 256 * read_bytes n m (a + 1)

unfoldable pub write_bytes : ℕ → Memory → ℕ → ℕ → Memory
write_bytes zero m a v = m
write_bytes (suc n) m a v = write_bytes n (write8 m a (v % 256)) (a + 1) (v / 256)

-- A `uint64_t` in memory.
abbrev pub read64 : Memory → ℕ → ℕ
read64 = read_bytes 8

abbrev pub write64 : Memory → ℕ → ℕ → Memory
write64 = write_bytes 8

pub write_bytes_outside :
    (n : ℕ) (m : Memory) (a v x : ℕ) → (x < a) ⊎ (a + n ≤ x) → write_bytes n m a v x ≡ m x
unfolding write_bytes
write_bytes_outside zero m a v x h = refl
write_bytes_outside (suc n) m a v x h =
    ground (arith, write_bytes_outside n (write8 m a (v % 256)) (a + 1) (v / 256) x)

pub read_bytes_congr :
    (n : ℕ) (m m' : Memory) (a : ℕ)
    → ((x : ℕ) → a ≤ x → x < a + n → m' x ≡ m x)
    → read_bytes n m' a ≡ read_bytes n m a
unfolding read_bytes
read_bytes_congr zero m m' a h = refl
read_bytes_congr (suc n) m m' a h = omega (
  arith,
  h a (omega arith) (omega arith),
  read_bytes_congr n m m' (a + 1) (λ x p q. h x (omega arith) (omega arith)),
)

read-write_small :
    (n : ℕ) (m : Memory) (a v : ℕ) → v < 256 ^ n → read_bytes n (write_bytes n m a v) a ≡ v
unfolding read_bytes write_bytes
read-write_small zero m a v h = omega arith
read-write_small (suc n) m a v h =
    let rest =
      read-write_small n (write8 m a (v % 256)) (a + 1) (v / 256) (omega (arith, pow-suc 256 n)) in
    let first =
      write_bytes_outside n (write8 m a (v % 256)) (a + 1) (v / 256) a (inl (omega arith)) in
    ground (arith, rest, first)

-- Reading back what was written.
pub read64-write64 : (m : Memory) (a v : ℕ) → v < 2 ^ 64 → read64 (write64 m a v) a ≡ v
read64-write64 m a v h = read-write_small 8 m a v h

pub read_bytes-lt : (n : ℕ) (m : Memory) (a : ℕ) → IsBytes m → read_bytes n m a < 256 ^ n
unfolding read_bytes
read_bytes-lt zero m a h = omega arith
read_bytes-lt (suc n) m a h = omega (arith, h a, read_bytes-lt n m (a + 1) h, pow-suc 256 n)

pub write_bytes-IsBytes : (n : ℕ) {m : Memory} (a v : ℕ) → IsBytes m → IsBytes (write_bytes n m a v)
unfolding write_bytes
write_bytes-IsBytes zero a v h = h
write_bytes-IsBytes (suc n) a v h =
    write_bytes-IsBytes n (a + 1) (v / 256) (write8-IsBytes a h (omega arith))
