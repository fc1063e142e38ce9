-- ===== src/Kheap/Chain.antt =====
-- The row of blocks that the walks of src/mem/kheap.c go through, as a list, and the bytes of it that
-- are headers and data.
use potatos.Base.{
  ℕ, ◌+◌, ◌≤◌, ◌<◌, ◌≡◌, inl, inr, Bool, true, false, ◌&&◌, ◌||◌, arith, ltb, leb, ◌==◌, List, [],
  ◌∷◌, Memory, read_bytes_congr, ◌∙◌, Bool-cases,
}
use potatos.Kheap.{node_size, node_status, heap_allocation_used}

-- A block: the size of its data, and its header's status.
pub record Block : Type 0 where
  pub size : ℕ
  pub status : ℕ

-- The blocks of `bs` stand in memory one behind the other, from `node` up to `end`.
abbrev pub Chain : Memory → ℕ → List Block → ℕ → Type 0
Chain m node [] end = node ≡ end
Chain m node (b ∷ bs) end =
    (node_size m node ≡ b.size)
    × (node_status m node ≡ b.status)
    × Chain m (node + 9 + b.size) bs end

-- Every block is used or free, and its header starts below `head`.
abbrev pub Below : ℕ → ℕ → List Block → Type 0
Below head node [] = Unit {0}
Below head node (b ∷ bs) =
    (node < head) × (b.status ≤ heap_allocation_used) × Below head (node + 9 + b.size) bs

-- Is `x` in the data of a used block?
abbrev pub held : ℕ → List Block → ℕ → Bool
held node [] x = false
held node (b ∷ bs) x =
    ((b.status == heap_allocation_used) && (leb (node + 9) x && ltb x (node + 9 + b.size)))
    || held (node + 9 + b.size) bs x

-- Does a used block start at `target`?
abbrev pub starts : ℕ → List Block → ℕ → Bool
starts node [] target = false
starts node (b ∷ bs) target =
    ((node == target) && (b.status == heap_allocation_used)) || starts (node + 9 + b.size) bs target

pub Chain-le :
    (m : Memory) (node : ℕ) (bs : List Block) (end : ℕ) → Chain m node bs end → node ≤ end
Chain-le m node [] end c = omega arith
Chain-le m node (b ∷ bs) end c = omega (arith, Chain-le m (node + 9 + b.size) bs end c.2)

-- What is held lies in the row.
pub held-within :
    (m : Memory) (node : ℕ) (bs : List Block) (end x : ℕ)
    → Chain m node bs end
    → held node bs x ≡ true
    → (node + 9 ≤ x) × (x < end)
held-within m node [] end x c h = ground arith
held-within m node (b ∷ bs) end x c h = ground (
  arith,
  Chain-le m (node + 9 + b.size) bs end c.2,
  held-within m (node + 9 + b.size) bs end x c.2,
)

pub starts-within :
    (m : Memory) (node : ℕ) (bs : List Block) (end target : ℕ)
    → Chain m node bs end
    → starts node bs target ≡ true
    → (node ≤ target) × (target + 9 ≤ end)
starts-within m node [] end target c h = ground arith
starts-within m node (b ∷ bs) end target c h = ground (
  arith,
  Chain-le m (node + 9 + b.size) bs end c.2,
  starts-within m (node + 9 + b.size) bs end target c.2,
)

pub node_size_congr :
    (m m' : Memory) (node : ℕ)
    → ((x : ℕ) → node ≤ x → x < node + 9 → m' x ≡ m x)
    → node_size m' node ≡ node_size m node
node_size_congr m m' node h = read_bytes_congr 8 m m' node (λ x p q. h x p (omega arith))

-- A change outside the row leaves the row.
pub Chain-frame :
    (m m' : Memory) (node : ℕ) (bs : List Block) (end : ℕ)
    → ((x : ℕ) → node ≤ x → x < end → m' x ≡ m x)
    → Chain m node bs end
    → Chain m' node bs end
Chain-frame m m' node [] end same c = c
Chain-frame m m' node (b ∷ bs) end same c =
    let le = Chain-le m (node + 9 + b.size) bs end c.2 in
    (
      node_size_congr m m' node (λ x p q. same x p (omega arith)) ∙ c.0,
      same (node + 8) (omega arith) (omega arith) ∙ c.1,
      Chain-frame m m' (node + 9 + b.size) bs end (λ x p q. same x (omega arith) q) c.2,
    )

-- A byte that is held is in no header: writing it leaves the row.
pub Chain-write :
    (m m' : Memory) (node : ℕ) (bs : List Block) (end x : ℕ)
    → ((y : ℕ) → (y == x) ≡ false → m' y ≡ m y)
    → held node bs x ≡ true
    → Chain m node bs end
    → Chain m' node bs end
Chain-write m m' node [] end x same h c = c
Chain-write m m' node (b ∷ bs) end x same h c =
    let within = held-within m node (b ∷ bs) end x c h in
    (
      node_size_congr m m' node (λ y p q. same y (ground arith)) ∙ c.0,
      same (node + 8) (ground arith) ∙ c.1,
      elim (Bool-cases (held (node + 9 + b.size) bs x)) [
        | inl t ↦ Chain-write m m' (node + 9 + b.size) bs end x same t c.2
        | inr f ↦ Chain-frame m m' (node + 9 + b.size) bs end (λ y p q. same y (ground arith)) c.2
      ],
    )
