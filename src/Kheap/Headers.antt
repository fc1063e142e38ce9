-- ===== src/Kheap/Headers.antt =====
-- The headers of src/mem/kheap.c: what a write of a header leaves in it and beside it.
use mathlib.Core.Path.{◌∙◌, ap, sym}
use potatos.Base.{
  ℕ, ◌+◌, ◌^◌, ◌≤◌, ◌<◌, ◌≡◌, ◌⊎◌, inr, arith, u64, Memory, read64-write64, write_bytes_outside,
  read_bytes_congr,
}
use potatos.Kheap.{node_size, node_status, set_size, set_status, split_block}

module _ (m : Memory) (node : ℕ) where
  pub set_size_outside : (size x : ℕ) → (x < node) ⊎ (node + 8 ≤ x) → set_size m node size x ≡ m x
  set_size_outside size x h = write_bytes_outside 8 m node size x h

  pub node_size-set_size : (size : ℕ) → size < 2 ^ 64 → node_size (set_size m node size) node ≡ size
  node_size-set_size size h = read64-write64 m node size h

  pub node_status-set_size :
      (size : ℕ) → node_status (set_size m node size) node ≡ node_status m node
  node_status-set_size size = write_bytes_outside 8 m node size (node + 8) (inr (omega arith))

  pub node_size-set_status : (s : ℕ) → node_size (set_status m node s) node ≡ node_size m node
  node_size-set_status s = read_bytes_congr 8 m (set_status m node s) node (λ x p q. ground arith)

  pub set_status_outside : (s x : ℕ) → (x < node + 8) ⊎ (node + 9 ≤ x) → set_status m node s x ≡ m x
  set_status_outside s x h = ground arith

-- A header that another node's write of its header does not touch.
module _ (m : Memory) (node other : ℕ) (apart : (node + 9 ≤ other) ⊎ (other + 9 ≤ node)) where
  pub node_size-set_size_other :
      (size : ℕ) → node_size (set_size m other size) node ≡ node_size m node
  node_size-set_size_other size =
      read_bytes_congr 8 m (set_size m other size) node
        (λ x p q. set_size_outside m other size x (omega arith))

  pub node_size-set_status_other :
      (s : ℕ) → node_size (set_status m other s) node ≡ node_size m node
  node_size-set_status_other s =
      read_bytes_congr 8 m (set_status m other s) node (λ x p q. ground arith)

-- What `split` leaves: two headers, and nothing else changed.
pub record IsSplit (m m' : Memory) (node size leftover : ℕ) : Type 0 where
  pub first_size : node_size m' node ≡ size
  pub first_status : node_status m' node ≡ 1
  pub second_size : node_size m' (node + size + 9) ≡ leftover
  pub second_status : node_status m' (node + size + 9) ≡ 0
  pub elsewhere :
      (x : ℕ)
      → (x < node) ⊎ (node + 9 ≤ x)
      → (x < node + size + 9) ⊎ (node + size + 18 ≤ x)
      → m' x ≡ m x

pub split_block-IsSplit :
    (node size leftover : ℕ) (m : Memory)
    → node + size + 9 < 2 ^ 64
    → leftover < 2 ^ 64
    → IsSplit m (split_block node size leftover m) node size leftover
unfolding split_block
split_block-IsSplit node size leftover m fit small =
    let second = u64 (node + size + 9) in
    let e : second ≡ node + size + 9 = omega arith in
    let a = set_status (set_size m node size) node 1 in
    let b = set_size a second leftover in
    record {
      first_size =
          node_size-set_status_other b node second (omega arith) 0
          ∙ node_size-set_size_other a node second (omega arith) leftover
          ∙ node_size-set_status (set_size m node size) node 1
          ∙ node_size-set_size m node size (omega arith);
      first_status = ground (arith, set_size_outside a second leftover (node + 8));
      second_size =
          ap (node_size (set_status b second 0)) (sym e)
          ∙ node_size-set_status b second 0
          ∙ node_size-set_size a second leftover small;
      second_status = ground arith;
      elsewhere = λ x p q.
          ground (arith, set_size_outside a second leftover x, set_size_outside m node size x);
    }
