-- ===== src/Kheap/Freed.antt =====
-- What `kfree` and `kheap_merge` of src/mem/kheap.c do to the row of blocks.
use potatos.Base.{
  ℕ, ◌+◌, ◌^◌, ◌≤◌, ◌<◌, ◌≡◌, ◌⊎◌, inl, inr, refl, ◌∙◌, Bool, true, false, ◌&&◌, ◌||◌, not, arith,
  ltb, leb, ◌==◌, if◌then◌else◌, Bool-cases, List, [], ◌∷◌, u64, Memory, ap,
}
use mathlib.Core.Path.{subst}
use potatos.Kheap.{node_size, node_status, set_size, set_status, merge_next}
use potatos.Kheap.Chain.{Block, Chain, Below, held, starts, Chain-le, Chain-frame}
use potatos.Kheap.Headers.{
  node_size-set_status, node_size-set_size, node_status-set_size, set_size_outside,
  node_size-set_status_other,
}

-- Is `x` in the data of the used block at `target`?
abbrev pub data_of : ℕ → ℕ → List Block → ℕ → Bool
data_of target node [] x = false
data_of target node (b ∷ bs) x =
    ((node == target) && (b.status == 1) && (leb (node + 9) x && ltb x (node + 9 + b.size)))
    || data_of target (node + 9 + b.size) bs x

-- Where the row ends after a block of it was freed: where it ended, or behind a header that the
-- memory behind the row seemed to hold.
abbrev pub EndsAt : Memory → ℕ → ℕ → Type 0
EndsAt m end last = (last ≡ end) ⊎ ((node_status m end ≡ 0) × (last ≡ end + 9 + node_size m end))

-- Freeing the block at `target` of the row `bs` led from the memory `m` to `m'`.
pub record Freed (target node : ℕ) (bs : List Block) (end : ℕ) (m m' : Memory) (head : ℕ)
    : Type 0 where
  pub blocks : List Block
  pub last : ℕ
  pub chain : Chain m' node blocks last
  pub below : Below head node blocks
  pub head-le : head ≤ last
  pub ends : EndsAt m end last
  pub holds : (x : ℕ) → held node blocks x ≡ (held node bs x && not (data_of target node bs x))
  pub begins : (t : ℕ) → starts node blocks t ≡ (starts node bs t && not (t == target))
  pub kept : (x : ℕ) → held node bs x ≡ true → m' x ≡ m x
  pub before : (x : ℕ) → x < node → m' x ≡ m x

-- The block at `node` is freed, and merged with the one behind it if that is free.
pub record Emptied (node : ℕ) (b : Block) (bs : List Block) (end : ℕ) (m m' : Memory) (head : ℕ)
    : Type 0 where
  pub size : ℕ
  pub rest : List Block
  pub last : ℕ
  pub is_size : node_size m' node ≡ size
  pub is_free : node_status m' node ≡ 0
  pub chain : Chain m' (node + 9 + size) rest last
  pub below : Below head (node + 9 + size) rest
  pub head-le : head ≤ last
  pub ends : EndsAt m end last
  pub holds : (x : ℕ) → held (node + 9 + size) rest x ≡ held (node + 9 + b.size) bs x
  pub begins : (t : ℕ) → starts (node + 9 + size) rest t ≡ starts (node + 9 + b.size) bs t
  pub outside : (x : ℕ) → (x < node) ⊎ (node + 9 ≤ x) → m' x ≡ m x

-- A header behind the row that looks free is of a block that ends in the address space.
abbrev pub TailFits : Memory → ℕ → Type 0
TailFits m end = node_status m end ≡ 0 → end + 9 + node_size m end < 2 ^ 64

module _ (node : ℕ) (b : Block) (end head : ℕ) (m : Memory) where
  abbrev freed : Memory
  freed = set_status m node 0

  -- the header is written and merged with a block of `extra` bytes
  abbrev grown : ℕ → Memory
  grown extra = set_size freed node (u64 (b.size + u64 (extra + 9)))

  stays-Emptied :
      (bs : List Block)
      → Chain m node (b ∷ bs) end
      → Below head node (b ∷ bs)
      → head ≤ end
      → Emptied node b bs end m freed head
  stays-Emptied bs chain below head_in = record {
    size = b.size;
    rest = bs;
    last = end;
    is_size = node_size-set_status m node 0 ∙ chain.0;
    is_free = ground arith;
    chain = Chain-frame m freed (node + 9 + b.size) bs end (λ x p q. ground arith) chain.2;
    below = below.2;
    head-le = head_in;
    ends = inl refl;
    holds = λ x. refl;
    begins = λ t. refl;
    outside = λ x p. ground arith;
  }

  module _ (extra : ℕ) (fit : node + 9 + b.size + 9 + extra < 2 ^ 64) where
    grown_size : node_size (grown extra) node ≡ b.size + 9 + extra
    grown_size = node_size-set_size freed node _ (omega arith) ∙ omega arith

    grown_free : node_status (grown extra) node ≡ 0
    grown_free = node_status-set_size freed node _ ∙ ground arith

    grown_outside : (x : ℕ) → (x < node) ⊎ (node + 9 ≤ x) → grown extra x ≡ m x
    grown_outside x p =
        ground (arith, set_size_outside freed node (u64 (b.size + u64 (extra + 9))) x)

  -- `kheap_merge` of the freed block with what stands behind it, in terms of the memory before.
  merge_next_lem :
      node_size m node ≡ b.size
      → node + 9 + b.size < 2 ^ 64
      → merge_next node (node + 9 + b.size) freed ≡ (
          if node_status m (node + 9 + b.size) == 0
          then grown (node_size m (node + 9 + b.size))
          else freed)
  unfolding merge_next
  merge_next_lem e low =
      let next = node + 9 + b.size in
      let some_next : (next == 0) ≡ false = ground arith in
      let same_status : node_status freed next ≡ node_status m next = ground arith in
      let same_size : node_size freed next ≡ node_size m next =
        node_size-set_status_other m next node (omega arith) 0 in
      let own_size : node_size freed node ≡ b.size = node_size-set_status m node 0 ∙ e in
      rw (some_next, same_status, same_size, own_size)

  -- Behind the last block stands no header: if the memory looks like that of a free block, it is taken.
  tail-Emptied :
      Chain m node (b ∷ []) end
      → Below head node (b ∷ [])
      → head ≤ end
      → end < 2 ^ 64
      → TailFits m end
      → Emptied node b [] end m (merge_next node (node + 9 + b.size) freed) head
  tail-Emptied chain below head_in low tail =
      let e = merge_next_lem chain.0 (omega arith) in
      let at_end : node + 9 + b.size ≡ end = chain.2 in
      elim (Bool-cases (node_status m (node + 9 + b.size) == 0)) [
        | inr used ↦ rw (e, used) (stays-Emptied [] chain below head_in)
        | inl looks_free ↦
            let extra = node_size m (node + 9 + b.size) in
            let same_extra : extra ≡ node_size m end = ap (node_size m) at_end in
            let same_status : node_status m (node + 9 + b.size) ≡ node_status m end =
              ap (node_status m) at_end in
            let is_free : node_status m end ≡ 0 = ground arith in
            let bound = tail is_free in
            let fit : node + 9 + b.size + 9 + extra < 2 ^ 64 = omega arith in
            rw (e, looks_free)
              (record {
                size = b.size + 9 + extra;
                rest = [];
                last = node + 9 + (b.size + 9 + extra);
                is_size = grown_size extra fit;
                is_free = grown_free extra fit;
                chain = refl;
                below = tt;
                head-le = omega arith;
                ends = inr (is_free, omega arith);
                holds = λ x. refl;
                begins = λ t. refl;
                outside = grown_outside extra fit;
              })
      ]

  middle-Emptied :
      (c : Block) (bs : List Block)
      → Chain m node (b ∷ c ∷ bs) end
      → Below head node (b ∷ c ∷ bs)
      → head ≤ end
      → end < 2 ^ 64
      → Emptied node b (c ∷ bs) end m (merge_next node (node + 9 + b.size) freed) head
  middle-Emptied c bs chain below head_in low =
      let next = node + 9 + b.size in
      let le = Chain-le m (next + 9 + c.size) bs end chain.2.2 in
      let e = merge_next_lem chain.0 (omega arith) in
      elim (Bool-cases (node_status m next == 0)) [
        | inr used ↦ rw (e, used) (stays-Emptied (c ∷ bs) chain below head_in)
        | inl empty ↦
            let fit : node + 9 + b.size + 9 + c.size < 2 ^ 64 = omega arith in
            let same_end : next + 9 + c.size ≡ node + 9 + (b.size + 9 + c.size) = omega arith in
            let was_free : c.status ≡ 0 = ground arith in
            let m' = grown c.size in
            rw (e, empty, chain.2.0)
              (record {
                size = b.size + 9 + c.size;
                rest = bs;
                last = end;
                is_size = grown_size c.size fit;
                is_free = grown_free c.size fit;
                chain =
                    subst (λ a. Chain m' a bs end) same_end
                      (Chain-frame m m' (next + 9 + c.size) bs end
                        (λ x p q. grown_outside c.size fit x (omega arith)) chain.2.2);
                below = subst (λ a. Below head a bs) same_end below.2.2;
                head-le = head_in;
                ends = inl refl;
                holds = λ x. ground (arith, ap (λ a. held a bs x) same_end);
                begins = λ t. ground (arith, ap (λ a. starts a bs t) same_end);
                outside = grown_outside c.size fit;
              })
      ]

pub next-Emptied :
    (node : ℕ) (b : Block) (bs : List Block) (end head : ℕ) (m : Memory)
    → Chain m node (b ∷ bs) end
    → Below head node (b ∷ bs)
    → head ≤ end
    → end < 2 ^ 64
    → TailFits m end
    → Emptied node b bs end m (merge_next node (node + 9 + b.size) (set_status m node 0)) head
next-Emptied node b [] end head m chain below head_in low tail =
    tail-Emptied node b end head m chain below head_in low tail
next-Emptied node b (c ∷ bs) end head m chain below head_in low tail =
    middle-Emptied node b end head m c bs chain below head_in low
