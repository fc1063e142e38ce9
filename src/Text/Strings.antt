-- ===== src/Text/Strings.antt =====
-- Strings that end in a zero byte: `strlen` and `strcpy` of src/lib/string.c.
use potatos.Base.{
  ℕ, zero, suc, ◌+◌, ◌-◌, ◌<◌, ◌≡◌, ◌≢◌, refl, ap, ◌∙◌, arith, ◌==◌, true, false, List, [], ◌∷◌,
  length, some, Memory, write8,
}
use potatos.Text.{strlen_loop, strlen, copy_loop, strcpy}
use potatos.Text.Copy.{within, IsForward, copy_loop_lem}

-- The characters `xs`, none of them zero, and a zero byte stand at `a`.
abbrev pub IsString : Memory → ℕ → List ℕ → Type 0
IsString m a [] = m a ≡ 0
IsString m a (x ∷ xs) = (m a ≡ x) × (x ≢ 0) × IsString m (a + 1) xs

strlen_loop_lem :
    (xs : List ℕ) (fuel i : ℕ) (m : Memory) (str a : ℕ)
    → str + i ≡ a
    → IsString m a xs
    → length xs < fuel
    → strlen_loop fuel i m str ≡ some (i + length xs)
unfolding strlen_loop
strlen_loop_lem xs zero i m str a at s enough = absurd (omega arith)
strlen_loop_lem [] (suc fuel) i m str a at s enough = ground (arith, s)
strlen_loop_lem (x ∷ xs) (suc fuel) i m str a at s enough =
    let more : (m (str + i) == 0) ≡ false = ground (arith, s.0, s.1) in
    rw (strlen_loop, more)
      (strlen_loop_lem xs fuel (i + 1) m str (a + 1) (omega arith) s.2 (omega arith)
        ∙ ap some (omega arith))

-- `strlen` of a string is its number of characters, with more fuel than characters.
pub strlen_lem :
    (xs : List ℕ) (fuel : ℕ) (m : Memory) (str : ℕ)
    → IsString m str xs
    → length xs < fuel
    → strlen fuel m str ≡ some (length xs)
unfolding strlen
strlen_lem xs fuel m str s enough =
    strlen_loop_lem xs fuel 0 m str str (omega arith) s enough ∙ ap some (omega arith)

strlen_loop_upto :
    (left fuel i n : ℕ) (m : Memory) (s : ℕ)
    → i + left ≡ n
    → left < fuel
    → ((k : ℕ) → k < n → m (s + k) ≢ 0)
    → m (s + n) ≡ 0
    → strlen_loop fuel i m s ≡ some n
unfolding strlen_loop
strlen_loop_upto left zero i n m s sum enough chars end = absurd (omega arith)
strlen_loop_upto zero (suc fuel) i n m s sum enough chars end =
    let here : i ≡ n = omega arith in
    let done : (m (s + n) == 0) ≡ true = ground arith in rw (here, done) refl
strlen_loop_upto (suc left) (suc fuel) i n m s sum enough chars end =
    let more : (m (s + i) == 0) ≡ false = ground (arith, chars i) in
    rw more (strlen_loop_upto left fuel (i + 1) n m s (omega arith) (omega arith) chars end)

-- `strlen` is the index of the first zero.
pub strlen_upto :
    (fuel n : ℕ) (m : Memory) (s : ℕ)
    → n < fuel
    → ((k : ℕ) → k < n → m (s + k) ≢ 0)
    → m (s + n) ≡ 0
    → strlen fuel m s ≡ some n
unfolding strlen
strlen_upto fuel n m s enough chars end =
    strlen_loop_upto n fuel 0 n m s (omega arith) enough chars end

-- A string whose bytes are those of another.
pub IsString-copy :
    (xs : List ℕ) (m m' : Memory) (s d : ℕ)
    → IsString m s xs
    → ((k : ℕ) → k < length xs → m' (d + k) ≡ m (s + k))
    → m' (d + length xs) ≡ 0
    → IsString m' d xs
IsString-copy [] m m' s d h same end = ap m' (omega arith) ∙ end
IsString-copy (x ∷ xs) m m' s d h same end = (
  ap m' (omega arith) ∙ same 0 (omega arith) ∙ ap m (omega arith) ∙ h.0,
  h.1,
  IsString-copy xs m m' (s + 1) (d + 1) h.2
      (λ k l. ap m' (omega arith) ∙ same (k + 1) (omega arith) ∙ ap m (omega arith))
      (ap m' (omega arith) ∙ end),
)

-- `strcpy` of a string returns, with more fuel than characters: the string stands at the destination
-- and nothing behind or in front of it has changed, if the source does not start in front of the
-- destination and reach into it.
pub strcpy_lem :
    (xs : List ℕ) (fuel d s : ℕ) (m : Memory)
    → IsString m s xs
    → length xs < fuel
    → IsForward d s (length xs)
    → (m' : Memory) × (strcpy fuel d s m ≡ some m')
      × IsString m' d xs
      × ((x : ℕ) → within d (length xs + 1) x ≡ false → m' x ≡ m x)
unfolding strcpy
strcpy_lem xs fuel d s m h enough safe =
    let m' = write8 (copy_loop (length xs) 0 d s m) (d + length xs) 0 in
    (
      m',
      rw (strcpy, strlen_lem xs fuel m s h enough) refl,
      IsString-copy xs m m' s d h
          (λ k l.
            let e : d + k - d ≡ k = omega arith in
            ground (arith, copy_loop_lem (length xs) 0 d s m (d + k), e))
          (ground arith),
      λ x out. ground (arith, copy_loop_lem (length xs) 0 d s m x),
    )
