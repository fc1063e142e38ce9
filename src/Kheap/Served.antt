-- ===== src/Kheap/Served.antt =====
-- What `kmalloc` of src/mem/kheap.c does to the row of blocks, by the way in which it serves a request.
use potatos.Base.{
  ℕ, ◌+◌, ◌-◌, ◌^◌, ◌≤◌, ◌<◌, ◌≡◌, inl, inr, refl, ◌∙◌, true, false, arith, ltb, if◌then◌else◌,
  Bool-cases, List, [], ◌∷◌, Memory, ltb→lt, ap,
}
use mathlib.Core.Path.{subst}
use native.Mathlib.Decide.{dec_lt}
use potatos.Kheap.{node_size, set_size, set_status, split_block}
use potatos.Kheap.Chain.{
  Block, Chain, Below, held, starts, Chain-le, Chain-frame, held-within, starts-within,
  node_size_congr,
}
use potatos.Kheap.Headers.{
  IsSplit, split_block-IsSplit, node_size-set_status, node_size-set_size, set_size_outside,
}

-- No free block has room for `size` bytes.
abbrev pub NoneFits : ℕ → List Block → Type 0
NoneFits size [] = Unit {0}
NoneFits size (b ∷ bs) = (b.status ≡ 0 → b.size < size) × NoneFits size bs

-- The request for `size` bytes over the row `bs` from `node` to `end` in the memory `m` led to the
-- memory `m'`, the new `heap_head` `head` and the data's address `r`.
pub record Served (size node : ℕ) (bs : List Block) (end : ℕ) (m m' : Memory) (head r : ℕ)
    : Type 0 where
  pub blocks : List Block
  pub last : ℕ
  pub chain : Chain m' node blocks last
  pub below : Below head node blocks
  pub head-le : head ≤ last
  pub last-le : last ≤ end + 9 + size
  pub behind : node + 9 ≤ r
  pub new : starts node bs (r - 9) ≡ false
  pub begins : starts node blocks (r - 9) ≡ true
  pub still : (t : ℕ) → starts node bs t ≡ true → starts node blocks t ≡ true
  pub kept : (x : ℕ) → held node bs x ≡ true → (held node blocks x ≡ true) × (m' x ≡ m x)
  pub fresh :
      (x : ℕ) → r ≤ x → x < r + size → (held node bs x ≡ false) × (held node blocks x ≡ true)
  pub before : (x : ℕ) → x < node → m' x ≡ m x
  pub reuse : end < last → NoneFits size bs

module _ (size node end head : ℕ) (m : Memory) where
  pub append-Served :
      node ≡ end
      → size < 2 ^ 32
      → end + 2 ^ 33 ≤ 2 ^ 64
      → Served size node [] end m (set_status (set_size m node size) node 1) (node + 9) (node + 9)
  append-Served e small low = record {
    blocks = record { size = size; status = 1 } ∷ [];
    last = node + 9 + size;
    chain = (
      node_size-set_status (set_size m node size) node 1
          ∙ node_size-set_size m node size (omega arith),
      ground arith,
      refl,
    );
    below = omega arith;
    head-le = omega arith;
    last-le = omega arith;
    behind = omega arith;
    new = ground arith;
    begins = ground arith;
    still = λ t h. ground arith;
    kept = λ x h. ground arith;
    fresh = λ x p q. ground arith;
    before = λ x p. ground (arith, set_size_outside m node size x);
    reuse = λ g. tt;
  }

module _ (size node end head : ℕ) (m : Memory) (b : Block) (bs : List Block)
    (chain : Chain m node (b ∷ bs) end) (below : Below head node (b ∷ bs))
    (head_in : head ≤ end) where
  whole-Served :
      b.status ≡ 0
      → size ≤ b.size
      → Served size node (b ∷ bs) end m (set_status m node 1) head (node + 9)
  whole-Served free fits = record {
    blocks = record { size = b.size; status = 1 } ∷ bs;
    last = end;
    chain = (
      node_size-set_status m node 1 ∙ chain.0,
      ground arith,
      Chain-frame m (set_status m node 1) (node + 9 + b.size) bs end (λ x p q. ground arith)
          chain.2,
    );
    below = (below.0, omega arith, below.2);
    head-le = head_in;
    last-le = omega arith;
    behind = omega arith;
    new = ground (arith, starts-within m (node + 9 + b.size) bs end node chain.2);
    begins = ground arith;
    still = λ t h. ground arith;
    kept = λ x h. ground (arith, held-within m (node + 9 + b.size) bs end x chain.2);
    fresh = λ x p q. ground (arith, held-within m (node + 9 + b.size) bs end x chain.2);
    before = λ x p. ground arith;
    reuse = λ g. absurd (omega arith);
  }

  -- The block is split, and the second part starts below `heap_head`.
  split-Served :
      (m' : Memory)
      → IsSplit (set_status m node 1) m' node size (b.size - (size + 9))
      → b.status ≡ 0
      → size + 9 < b.size
      → node + 9 + size < head
      → Served size node (b ∷ bs) end m m' head (node + 9)
  split-Served m' s free room inside = record {
    blocks =
        record { size = size; status = 1 } ∷ record { size = b.size - (size + 9); status = 0 } ∷ bs;
    last = end;
    chain = (
      s.first_size,
      s.first_status,
      (
        ap (node_size m') (omega arith) ∙ s.second_size,
        ap m' (omega arith) ∙ s.second_status,
        rest,
      ),
    );
    below = (
      below.0,
      omega arith,
      (inside, omega arith, subst (λ a. Below head a bs) same_end below.2),
    );
    head-le = head_in;
    last-le = omega arith;
    behind = omega arith;
    new = ground (arith, starts-within m (node + 9 + b.size) bs end node chain.2);
    begins = ground arith;
    still = λ t h. ground (arith, ap (λ a. starts a bs t) same_end);
    kept = λ x h. ground (
      arith,
      held-within m (node + 9 + b.size) bs end x chain.2,
      ap (λ a. held a bs x) same_end,
      s.elsewhere x,
    );
    fresh = λ x p q.
        ground (
          arith,
          held-within m (node + 9 + b.size) bs end x chain.2,
          ap (λ a. held a bs x) same_end,
        );
    before = λ x p. ground (arith, s.elsewhere x);
    reuse = λ g. absurd (omega arith);
  }
    where
      same_end : node + 9 + b.size ≡ node + 9 + size + 9 + (b.size - (size + 9))
      same_end = omega arith

      rest : Chain m' (node + 9 + size + 9 + (b.size - (size + 9))) bs end
      rest =
          subst (λ a. Chain m' a bs end) same_end
            (Chain-frame m m' (node + 9 + b.size) bs end (λ x p q. ground (arith, s.elsewhere x))
              chain.2)

-- The block is the last one, and the second part starts at `heap_head` or behind: the row now ends in
-- front of it.
cut-Served :
    (size node end head : ℕ) (m m' : Memory) (b : Block) (bs : List Block)
    → Chain m node (b ∷ bs) end
    → Below head node (b ∷ bs)
    → head ≤ end
    → IsSplit (set_status m node 1) m' node size (b.size - (size + 9))
    → b.status ≡ 0
    → size + 9 < b.size
    → head ≤ node + 9 + size
    → Served size node (b ∷ bs) end m m' head (node + 9)
cut-Served size node end head m m' b [] chain below head_in s free room outside = record {
  blocks = record { size = size; status = 1 } ∷ [];
  last = node + 9 + size;
  chain = (s.first_size, s.first_status, refl);
  below = (below.0, omega arith, tt);
  head-le = outside;
  last-le = omega arith;
  behind = omega arith;
  new = ground arith;
  begins = ground arith;
  still = λ t h. ground arith;
  kept = λ x h. ground arith;
  fresh = λ x p q. ground arith;
  before = λ x p. ground (arith, s.elsewhere x);
  reuse = λ g. absurd (omega arith);
}
cut-Served size node end head m m' b (c ∷ bs) chain below head_in s free room outside =
    absurd (omega arith)

-- A block that is passed over stays in front of the row that is left.
pub skip-Served :
    (size node end : ℕ) (m m' : Memory) (b : Block) (bs : List Block) (head old r : ℕ)
    → Chain m node (b ∷ bs) end
    → node < old
    → old ≤ head
    → b.status ≤ 1
    → (b.status ≡ 0 → b.size < size)
    → Served size (node + 9 + b.size) bs end m m' head r
    → Served size node (b ∷ bs) end m m' head r
skip-Served size node end m m' b bs head old r chain low grows status small rest = record {
  blocks = b ∷ rest.blocks;
  last = rest.last;
  chain = (
    node_size_congr m m' node (λ x p q. rest.before x (omega arith)) ∙ chain.0,
    rest.before (node + 8) (omega arith) ∙ chain.1,
    rest.chain,
  );
  below = (omega arith, status, rest.below);
  head-le = rest.head-le;
  last-le = rest.last-le;
  behind = omega (arith, rest.behind);
  new = ground (arith, rest.new, rest.behind);
  begins = ground (arith, rest.begins);
  still = λ t h. ground (arith, rest.still t);
  kept = λ x h. ground (arith, rest.kept x, rest.before x);
  fresh = λ x p q. ground (arith, rest.fresh x, rest.behind);
  before = λ x p. rest.before x (omega arith);
  reuse = λ g. (small, rest.reuse g);
}

-- A free block that is large enough serves the request, whether it is split or not.
pub fits-Served :
    (size node end head : ℕ) (m : Memory) (b : Block) (bs : List Block)
    → Chain m node (b ∷ bs) end
    → Below head node (b ∷ bs)
    → head ≤ end
    → end + 2 ^ 33 ≤ 2 ^ 64
    → b.status ≡ 0
    → size ≤ b.size
    → Served size node
        (b ∷ bs)
        end
        m
        (if ltb (size + 9) b.size
          then split_block node size (b.size - (size + 9)) (set_status m node 1)
          else set_status m node 1)
        head
        (node + 9)
fits-Served size node end head m b bs chain below head_in low free fits =
    let le = Chain-le m (node + 9 + b.size) bs end chain.2 in
    elim (Bool-cases (ltb (size + 9) b.size)) [
      | inr small ↦ rw small (whole-Served size node end head m b bs chain below head_in free fits)
      | inl room ↦
          let s =
            split_block-IsSplit node size (b.size - (size + 9)) (set_status m node 1) (ground arith)
              (ground arith) in
          let m' = split_block node size (b.size - (size + 9)) (set_status m node 1) in
          elim (dec_lt (node + 9 + size) head) [
            | yes inside ↦ rw room (
                split-Served size node end head m b bs chain below head_in m' s free
                  (ltb→lt _ _ room) inside)
            | no outside ↦ rw room (
                cut-Served size node end head m m' b bs chain below head_in s free (ltb→lt _ _ room)
                  (omega arith))
          ]
    ]
