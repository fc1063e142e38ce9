-- ===== src/Kheap/Regions.antt =====
-- The regions that clients of src/mem/kheap.c hold, and the data of used blocks: a row of held bytes
-- behind the start of a used block is data of that block.
use potatos.Base.{
  refl, length, ℕ, ◌+◌, ◌≤◌, ◌<◌, ◌≡◌, inl, inr, true, arith, Bool-cases, ltb, leb, ◌-◌,
  if◌then◌else◌, Bool, ◌==◌, ◌&&◌, List, [], ◌∷◌, Memory,
}
use mathlib.Core.Path.{subst}
use potatos.Kheap.Chain.{Below, Block, Chain, held, starts, held-within, starts-within}
use potatos.Kheap.Freed.{data_of}

data_of-le : (t node : ℕ) (bs : List Block) (x : ℕ) → data_of t node bs x ≡ true → node + 9 ≤ x
data_of-le t node [] x d = ground arith
data_of-le t node (b ∷ bs) x d = ground (arith, data_of-le t (node + 9 + b.size) bs x)

-- A byte is data of one block.
pub data_of-same :
    (t t' node : ℕ) (bs : List Block) (x : ℕ)
    → data_of t node bs x ≡ true
    → data_of t' node bs x ≡ true
    → t ≡ t'
data_of-same t t' node [] x d d' = ground arith
data_of-same t t' node (b ∷ bs) x d d' = ground (
  arith,
  data_of-same t t' (node + 9 + b.size) bs x,
  data_of-le t (node + 9 + b.size) bs x,
  data_of-le t' (node + 9 + b.size) bs x,
)

pub data_of-run :
    (m : Memory) (t n node : ℕ) (bs : List Block) (end x : ℕ)
    → Chain m node bs end
    → starts node bs t ≡ true
    → ((y : ℕ) → t + 9 ≤ y → y < t + 9 + n → held node bs y ≡ true)
    → t + 9 ≤ x
    → x < t + 9 + n
    → data_of t node bs x ≡ true
data_of-run m t n node [] end x chain start run low high = ground arith
data_of-run m t n node (b ∷ bs) end x chain start run low high =
    let rest = node + 9 + b.size in
    elim (Bool-cases ((node == t) && (b.status == 1))) [
      | inl own ↦ ground (
        arith,
        run (node + 9 + b.size),
        held-within m (node + 9 + b.size) bs end (node + 9 + b.size) chain.2,
      )
      | inr other ↦
          let behind = starts-within m rest bs end t chain.2 (ground arith) in
          let later =
            data_of-run m t n rest bs end x chain.2 (ground arith)
              (λ y p q. ground (arith, run y p q)) low high in
          ground arith
    ]

-- The memory determines the row of blocks.
pub Chain-end :
    (m : Memory) (head node : ℕ) (bs cs : List Block) (end last : ℕ)
    → Chain m node bs end
    → Below head node bs
    → head ≤ end
    → Chain m node cs last
    → Below head node cs
    → head ≤ last
    → (length bs ≡ length cs) × (end ≡ last)
Chain-end m head node [] [] end last c u p d v q = (refl, omega (arith, c, d))
Chain-end m head node [] (b ∷ cs) end last c u p d v q = absurd (omega (arith, c, v.0))
Chain-end m head node (b ∷ bs) [] end last c u p d v q = absurd (omega (arith, d, u.0))
Chain-end m head node (b ∷ bs) (b' ∷ cs) end last c u p d v q =
    let same : node + 9 + b'.size ≡ node + 9 + b.size = omega (arith, c.0, d.0) in
    let rest =
      Chain-end m head (node + 9 + b.size) bs cs end last c.2 u.2 p
        (subst (λ a. Chain m a cs last) same d.2) (subst (λ a. Below head a cs) same v.2) q in
    (omega (arith, rest.0), rest.1)

-- What a request returned, with the size that was asked for.
pub record Region : Type 0 where
  pub start : ℕ
  pub size : ℕ

abbrev pub inside : Region → ℕ → Bool
inside r x = leb r.start x && ltb x (r.start + r.size)

-- how many regions `x` lies in
abbrev pub holders : ℕ → List Region → ℕ
holders x [] = 0
holders x (r ∷ rs) = (if inside r x then 1 else 0) + holders x rs

-- how many regions start at `p`
abbrev pub begun : ℕ → List Region → ℕ
begun p [] = 0
begun p (r ∷ rs) = (if r.start == p then 1 else 0) + begun p rs

-- without the first region that starts at `p`
abbrev pub remove : ℕ → List Region → List Region
remove p [] = []
remove p (r ∷ rs) = if r.start == p then rs else r ∷ remove p rs

pub begun-remove :
    (p q : ℕ) (rs : List Region)
    → begun q (remove p rs) ≡ begun q rs - (if p == q && leb 1 (begun p rs) then 1 else 0)
begun-remove p q [] = ground arith
begun-remove p q (r ∷ rs) = ground (arith, begun-remove p q rs)

pub holders-remove : (p x : ℕ) (rs : List Region) → holders x (remove p rs) ≤ holders x rs
holders-remove p x [] = ground arith
holders-remove p x (r ∷ rs) = ground (arith, holders-remove p x rs)

-- A region that `x` lies in.
pub holder :
    (x : ℕ) (rs : List Region)
    → 0 < holders x rs
    → (r : Region) × (inside r x ≡ true)
      × (0 < begun r.start rs)
      × ((y : ℕ) → inside r y ≡ true → 0 < holders y rs)
holder x [] h = absurd (omega arith)
holder x (r ∷ rs) h = elim (Bool-cases (inside r x)) [
  | inl i ↦ (r, i, ground arith, λ y j. ground arith)
  | inr o ↦
      let rest = holder x rs (ground arith) in
      (rest.0, rest.1, omega (arith, rest.2), λ y j. omega (arith, rest.3 y j))
]
