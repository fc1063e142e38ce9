-- ===== src/Number/Reverse.antt =====
-- `reverse` of src/lib/stdlib.c turns a string around in place.
use potatos.Base.{
  ℕ, zero, suc, ◌+◌, ◌-◌, ◌*◌, ◌≤◌, ◌<◌, ◌≡◌, ◌≢◌, ◌⊎◌, refl, ap, ◌∙◌, false, ◌&&◌, ltb, leb, ◌==◌,
  if◌then◌else◌, arith, Bool-cases, inl, inr, All, some, Memory, write8,
}
use potatos.Text.Copy.{within}
use potatos.Text.Strings.{IsString, strlen_upto}
use potatos.Number.{reverse_loop, reverse}
use potatos.Number.Digits.{taken}

-- Where the byte at `x` comes from, if the bytes from index `i` to index `j` of `s` are turned around.
abbrev pub turned : (i j s : ℕ) → Memory → Memory
turned i j s m x = if leb (s + i) x && leb x (s + j) then m (s + s + i + j - x) else m x

reverse_loop_lem :
    (fuel i j s : ℕ) (m : Memory)
    → j + 2 ≤ i + fuel * 2
    → i ≤ j + 1
    → (m' : Memory) × (reverse_loop fuel i j s m ≡ some m') × ((x : ℕ) → m' x ≡ turned i j s m x)
unfolding reverse_loop
reverse_loop_lem zero i j s m enough order = absurd (omega arith)
reverse_loop_lem (suc fuel) i j s m enough order = elim (Bool-cases (ltb i j)) [
  | inl more ↦
      let swapped = write8 (write8 m (s + i) (m (s + j))) (s + j) (m (s + i)) in
      let rest = reverse_loop_lem fuel (i + 1) (j - 1) s swapped (ground arith) (ground arith) in
      (
        rest.0,
        rw more rest.1,
        λ x.
            let e : s + s + (i + 1) + (j - 1) - x ≡ s + s + i + j - x = ground arith in
            ground (arith, rest.2 x, e),
      )
  | inr done ↦ (
    m,
    rw done refl,
    λ x.
        let here : (s + s + i + j - x ≡ x) ⊎ (leb (s + i) x && leb x (s + j) ≡ false) =
          ground arith in
        ground (arith, here),
  )
]

pub nonzero : (n : ℕ) (t : Memory) → All (λ c. c ≢ 0) (taken t n) → (k : ℕ) → k < n → t k ≢ 0
nonzero zero t chars k l = absurd (omega arith)
nonzero (suc n) t chars k l = elim (Bool-cases (n == k)) [
  | inl last ↦ let e : k ≡ n = ground arith in rw e (chars.0)
  | inr lower ↦ nonzero n t chars.1 k (ground arith)
]

-- A string whose bytes are taken from another memory, the last one first.
pub IsString-taken :
    (n : ℕ) (m t : Memory) (a : ℕ)
    → ((k : ℕ) → k < n → m (a + k) ≡ t (n - 1 - k))
    → All (λ c. c ≢ 0) (taken t n)
    → m (a + n) ≡ 0
    → IsString m a (taken t n)
IsString-taken zero m t a same chars end = ap m (omega arith) ∙ end
IsString-taken (suc n) m t a same chars end = (
  ap m (omega arith) ∙ same 0 (omega arith) ∙ ap t (omega arith),
  chars.0,
  IsString-taken n m t (a + 1)
      (λ k l. ap m (omega arith) ∙ same (k + 1) (omega arith) ∙ ap t (omega arith)) chars.1
      (ap m (omega arith) ∙ end),
)

-- `reverse` of the `n` bytes at `s` in front of the first zero returns, with more fuel than bytes: the
-- string of these bytes from the last to the first stands there, and no other byte has changed.
pub reverse_lem :
    (fuel n s : ℕ) (m : Memory)
    → n < fuel
    → All (λ c. c ≢ 0) (taken (λ k. m (s + k)) n)
    → m (s + n) ≡ 0
    → (m' : Memory) × (reverse fuel s m ≡ some m')
      × IsString m' s (taken (λ k. m (s + k)) n)
      × ((x : ℕ) → within s n x ≡ false → m' x ≡ m x)
unfolding reverse
reverse_lem fuel n s m enough chars end =
    let size = strlen_upto fuel n m s enough (λ k l. nonzero n (λ k. m (s + k)) chars k l) end in
    let (m', runs, at) = reverse_loop_lem fuel 0 (n - 1) s m (omega arith) (omega arith) in
    (
      m',
      rw (reverse, size) runs,
      IsString-taken n m' (λ k. m (s + k)) s
          (λ k l.
            let e : s + s + 0 + (n - 1) - (s + k) ≡ s + (n - 1 - k) = omega arith in
            ground (arith, at (s + k), e))
          chars (ground (arith, at (s + n))),
      λ x out. ground (arith, at x),
    )
