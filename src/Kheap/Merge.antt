-- ===== src/Kheap/Merge.antt =====
-- `kheap_merge` of src/mem/kheap.c on the row of blocks: with the block behind, and with the one in front.
use mathlib.Core.Path.{subst}
use potatos.Base.{
  ℕ, ◌+◌, ◌^◌, ◌≤◌, ◌<◌, ◌≡◌, inl, inr, refl, ◌∙◌, true, false, arith, ◌==◌, Bool-cases, List, [],
  ◌∷◌, u64, Memory, ap,
}
use potatos.Kheap.{
  node_size, node_status, set_size, set_status, merge_next, merge_previous, kheap_merge,
}
use potatos.Kheap.Chain.{
  Block, Chain, Below, held, starts, Chain-le, Chain-frame, held-within, starts-within,
  node_size_congr,
}
use potatos.Kheap.Headers.{node_size-set_size, node_status-set_size, set_size_outside}
use potatos.Kheap.Freed.{data_of, Freed, Emptied, TailFits, next-Emptied}

data_of-eq-false :
    (target node : ℕ) (bs : List Block) (x : ℕ) → target < node → data_of target node bs x ≡ false
data_of-eq-false target node [] x h = refl
data_of-eq-false target node (b ∷ bs) x h =
    ground (arith, data_of-eq-false target (node + 9 + b.size) bs x (omega arith))

data_of-held :
    (target node : ℕ) (bs : List Block) (x : ℕ)
    → data_of target node bs x ≡ true
    → held node bs x ≡ true
data_of-held target node [] x h = cc
data_of-held target node (b ∷ bs) x h = ground (arith, data_of-held target (node + 9 + b.size) bs x)

-- The freed block is not merged with the one in front.
first-Freed :
    (node : ℕ) (b : Block) (bs : List Block) (end head : ℕ) (m m' : Memory)
    → Chain m node (b ∷ bs) end
    → node < head
    → b.status ≡ 1
    → Emptied node b bs end m m' head
    → Freed node node (b ∷ bs) end m m' head
first-Freed node b bs end head m m' chain low used e =
    let le = Chain-le m (node + 9 + b.size) bs end chain.2 in
    record {
      blocks = record { size = e.size; status = 0 } ∷ e.rest;
      last = e.last;
      chain = (e.is_size, e.is_free, e.chain);
      below = (low, omega arith, e.below);
      head-le = e.head-le;
      ends = e.ends;
      holds = λ x. ground (
        arith,
        e.holds x,
        data_of-eq-false node (node + 9 + b.size) bs x,
        held-within m (node + 9 + b.size) bs end x chain.2,
      );
      begins =
          λ t. ground (arith, e.begins t, starts-within m (node + 9 + b.size) bs end t chain.2);
      kept = λ x h. e.outside x (inr (held-within m node (b ∷ bs) end x chain h).0);
      before = λ x h. e.outside x (inl h);
    }

-- A block in front of the target stays as it is.
pub skip-Freed :
    (target node : ℕ) (b : Block) (bs : List Block) (end head : ℕ) (m m' : Memory)
    → Chain m node (b ∷ bs) end
    → node < head
    → b.status ≤ 1
    → node < target
    → Freed target (node + 9 + b.size) bs end m m' head
    → Freed target node (b ∷ bs) end m m' head
skip-Freed target node b bs end head m m' chain low status past f = record {
  blocks = b ∷ f.blocks;
  last = f.last;
  chain = (
    node_size_congr m m' node (λ x p q. f.before x (omega arith)) ∙ chain.0,
    f.before (node + 8) (omega arith) ∙ chain.1,
    f.chain,
  );
  below = (low, status, f.below);
  head-le = f.head-le;
  ends = f.ends;
  holds = λ x. ground (
    arith,
    f.holds x,
    data_of-held target (node + 9 + b.size) bs x,
    held-within m (node + 9 + b.size) bs end x chain.2,
  );
  begins = λ t. ground (arith, f.begins t);
  kept = λ x h. ground (arith, f.kept x, f.before x);
  before = λ x h. f.before x (omega arith);
}

-- The block in front of the freed one is free too, and takes it in.
previous-Freed :
    (node : ℕ) (p b : Block) (bs : List Block) (end head : ℕ) (m m' : Memory)
    → Chain m node (p ∷ b ∷ bs) end
    → node < head
    → p.status ≡ 0
    → b.status ≡ 1
    → (e : Emptied (node + 9 + p.size) b bs end m m' head) → e.last < 2 ^ 64
    → Freed
        (node + 9 + p.size)
        node
        (p ∷ b ∷ bs)
        end
        m
        (set_size m' node (u64 (node_size m' node + u64 (e.size + 9))))
        head
previous-Freed node p b bs end head m m' chain low was_free used e fit =
    let at = node + 9 + p.size in
    let le = Chain-le m' (at + 9 + e.size) e.rest e.last e.chain in
    let le' = Chain-le m (at + 9 + b.size) bs end chain.2.2 in
    let own : node_size m' node ≡ p.size =
      node_size_congr m m' node (λ x l r. e.outside x (omega arith)) ∙ chain.0 in
    let same_end : at + 9 + e.size ≡ node + 9 + (p.size + 9 + e.size) = omega arith in
    let value = u64 (node_size m' node + u64 (e.size + 9)) in
    let is_value : value ≡ p.size + 9 + e.size = omega arith in
    let m'' = set_size m' node value in
    record {
      blocks = record { size = p.size + 9 + e.size; status = 0 } ∷ e.rest;
      last = e.last;
      chain = (
        node_size-set_size m' node value (omega arith) ∙ is_value,
        node_status-set_size m' node value
            ∙ e.outside (node + 8) (omega arith)
            ∙ chain.1
            ∙ was_free,
        subst (λ a. Chain m'' a e.rest e.last) same_end
            (Chain-frame m' m'' (at + 9 + e.size) e.rest e.last
              (λ x l r. set_size_outside m' node value x (omega arith)) e.chain),
      );
      below = (low, omega arith, subst (λ a. Below head a e.rest) same_end e.below);
      head-le = e.head-le;
      ends = e.ends;
      holds = λ x. ground (
        arith,
        e.holds x,
        ap (λ a. held a e.rest x) same_end,
        data_of-eq-false at (at + 9 + b.size) bs x,
        held-within m (at + 9 + b.size) bs end x chain.2.2,
      );
      begins = λ t. ground (
        arith,
        e.begins t,
        ap (λ a. starts a e.rest t) same_end,
        starts-within m (at + 9 + b.size) bs end t chain.2.2,
      );
      kept = λ x h.
          let within = held-within m node (p ∷ b ∷ bs) end x chain h in
          ground (
            arith,
            set_size_outside m' node value x,
            e.outside x,
            held-within m (at + 9 + b.size) bs end x chain.2.2,
          );
      before = λ x h. set_size_outside m' node value x (inl h) ∙ e.outside x (inl (omega arith));
    }

-- The second half of `kheap_merge`, once the block is merged with the one behind it.
merge_previous-Freed :
    (node : ℕ) (p b : Block) (bs : List Block) (end head : ℕ) (m m' : Memory)
    → 0 < node
    → Chain m node (p ∷ b ∷ bs) end
    → Below head node (p ∷ b ∷ bs)
    → b.status ≡ 1
    → (e : Emptied (node + 9 + p.size) b bs end m m' head) → e.last < 2 ^ 64
    → Freed
        (node + 9 + p.size)
        node
        (p ∷ b ∷ bs)
        end
        m
        (merge_previous (node + 9 + p.size) node m')
        head
unfolding merge_previous
merge_previous-Freed node p b bs end head m m' pos chain below used e fit =
    let is_some : (node == 0) ≡ false = ground arith in
    let same_status : node_status m' node ≡ p.status =
      e.outside (node + 8) (inl (omega arith)) ∙ chain.1 in
    elim (Bool-cases (p.status == 0)) [
      | inl free ↦
          rw (is_some, same_status, free, e.is_size)
            (previous-Freed node p b bs end head m m' chain below.0 (ground arith) used e fit)
      | inr other ↦
          rw (is_some, same_status, other)
            (skip-Freed (node + 9 + p.size) node p (b ∷ bs) end head m m' chain below.0 below.1
              (omega arith)
              (first-Freed (node + 9 + p.size) b bs end head m m' chain.2 below.2.0 used e))
    ]

Emptied-last :
    (node : ℕ) (b : Block) (bs : List Block) (end head : ℕ) (m m' : Memory)
    → end < 2 ^ 64
    → TailFits m end
    → (e : Emptied node b bs end m m' head) → e.last < 2 ^ 64
Emptied-last node b bs end head m m' low tail e = elim e.ends [
  | inl same ↦ omega arith
  | inr grown ↦ omega (arith, tail grown.0)
]

module _ (b : Block) (bs : List Block) (end head : ℕ) (m : Memory) (head_in : head ≤ end)
    (low : end < 2 ^ 64) (tail : TailFits m end) (used : b.status ≡ 1) where
  -- `kfree` of the first block of the row.
  pub kheap_merge_first :
      (node : ℕ)
      → Chain m node (b ∷ bs) end
      → Below head node (b ∷ bs)
      → Freed node node
          (b ∷ bs)
          end
          m
          (kheap_merge node (node + 9 + b.size) 0 (set_status m node 0))
          head
  unfolding kheap_merge merge_previous
  kheap_merge_first node chain below =
      first-Freed node b bs end head m (merge_next node (node + 9 + b.size) (set_status m node 0))
        chain below.0 used (next-Emptied node b bs end head m chain below head_in low tail)

  -- `kfree` of a block behind the block `p` at `previous`.
  pub kheap_merge_behind :
      (previous : ℕ) (p : Block)
      → 0 < previous
      → Chain m previous (p ∷ b ∷ bs) end
      → Below head previous (p ∷ b ∷ bs)
      → Freed
          (previous + 9 + p.size)
          previous
          (p ∷ b ∷ bs)
          end
          m
          (kheap_merge
            (previous + 9 + p.size)
            (previous + 9 + p.size + 9 + b.size)
            previous
            (set_status m (previous + 9 + p.size) 0))
          head
  unfolding kheap_merge
  kheap_merge_behind previous p pos chain below =
      let node = previous + 9 + p.size in
      let e = next-Emptied node b bs end head m chain.2 below.2 head_in low tail in
      merge_previous-Freed previous p b bs end head m
        (merge_next node (node + 9 + b.size) (set_status m node 0)) pos chain below used e
        (Emptied-last node b bs end head m _ low tail e)
