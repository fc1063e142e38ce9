-- ===== src/Kheap/Malloc.antt =====
-- `kmalloc` of src/mem/kheap.c.
use potatos.Base.{
  ℕ, zero, suc, ◌+◌, ◌-◌, ◌^◌, ◌≤◌, ◌<◌, ◌≡◌, refl, ◌∙◌, true, false, arith, ltb, if◌then◌else◌,
  Bool-cases, inl, inr, List, [], ◌∷◌, length, some, u64, sub64, Memory, ltb→lt,
}
use potatos.Kheap.{
  Mapper, Heap, fits, use_block, append_block, map_address, next_address, kmalloc_loop, kmalloc,
  split_block, range_map, node_size, set_status,
}
use potatos.Kheap.Chain.{Block, Chain, Below, Chain-le}
use potatos.Kheap.Headers.{node_size-set_status}
use potatos.Kheap.Served.{Served, append-Served, fits-Served, skip-Served}

-- The blocks `bs` are the row that the walks go through, up to `end`.
pub record IsHeap (mapper : Mapper) (h : Heap mapper) (bs : List Block) (end : ℕ) : Type 0 where
  pub chain : Chain h.memory h.heap_start bs end
  pub below : Below h.heap_head h.heap_start bs
  pub head-le : h.heap_head ≤ end

leftover_size :
    (node size gap : ℕ) (m : Memory)
    → gap < 2 ^ 64
    → (if ltb (size + 9) gap then split_block node size (sub64 gap (size + 9)) m else m)
      ≡ (if ltb (size + 9) gap then split_block node size (gap - (size + 9)) m else m)
leftover_size node size gap m low = elim (Bool-cases (ltb (size + 9) gap)) [
  | inl room ↦
      let e : sub64 gap (size + 9) ≡ gap - (size + 9) = omega (arith, ltb→lt _ _ room) in
      rw (room, e)
  | inr full ↦ rw full
]

-- A call of `kmalloc` that served the request.
abbrev pub Serves :
    (mapper : Mapper) → ℕ → ℕ → List Block → ℕ → Heap mapper → ℕ × Heap mapper → Type 0
Serves mapper size node bs end h (r, h') =
    Served size node bs end h.memory h'.memory h'.heap_head r
    × (h'.heap_start ≡ h.heap_start)
    × (h.heap_head ≤ h'.heap_head)

module _ (mapper : Mapper) (size : ℕ) (small : size < 2 ^ 32) where
  append_block-Serves :
      (node end : ℕ) (h : Heap mapper)
      → node ≡ end
      → h.heap_head ≤ end
      → end + 2 ^ 33 ≤ 2 ^ 64
      → Serves mapper size node [] end h (append_block mapper node size h)
  unfolding append_block range_map
  append_block-Serves node end h e head low =
      let no_wrap : u64 (node + 9) ≡ node + 9 = omega arith in
      rw no_wrap (append-Served size node end h.heap_head h.memory e small low, refl, omega arith)

  use_block-Serves :
      (node end : ℕ) (b : Block) (bs : List Block) (h : Heap mapper)
      → Chain h.memory node (b ∷ bs) end
      → Below h.heap_head node (b ∷ bs)
      → h.heap_head ≤ end
      → end + 2 ^ 33 ≤ 2 ^ 64
      → b.status ≡ 0
      → size ≤ b.size
      → Serves mapper size node (b ∷ bs) end h (use_block mapper node size h)
  unfolding use_block range_map
  use_block-Serves node end b bs h chain below head low free room =
      let le = Chain-le h.memory (node + 9 + b.size) bs end chain.2 in
      let gap : node_size (set_status h.memory node 1) node ≡ b.size =
        node_size-set_status h.memory node 1 ∙ chain.0 in
      let no_wrap : u64 (node + 9) ≡ node + 9 = omega arith in
      let served =
        fits-Served size node end h.heap_head h.memory b bs chain below head low free room in
      rw (gap, leftover_size node size b.size (set_status h.memory node 1) (omega arith), no_wrap)
        (served, refl, omega arith)

  -- With a bound on the blocks' number as fuel the walk ends, and serves the request.
  kmalloc_loop-Serves :
      (fuel node end : ℕ) (bs : List Block) (h : Heap mapper)
      → length bs < fuel
      → Chain h.memory node bs end
      → Below h.heap_head node bs
      → h.heap_head ≤ end
      → end + 2 ^ 33 ≤ 2 ^ 64
      → (r : ℕ × Heap mapper) × (kmalloc_loop mapper fuel node size h ≡ some r)
        × Serves mapper size node bs end h r
  unfolding kmalloc_loop
  kmalloc_loop-Serves zero node end bs h enough chain below head low = absurd (omega arith)
  kmalloc_loop-Serves (suc fuel) node end [] h enough chain below head low =
      let out : ltb node h.heap_head ≡ false = ground arith in
      (
        append_block mapper node size h,
        rw (out, kmalloc_loop),
        append_block-Serves node end h chain head low,
      )
  kmalloc_loop-Serves (suc fuel) node end (b ∷ bs) h enough chain below head low =
      let within : ltb node h.heap_head ≡ true = ground arith in
      elim (Bool-cases (fits mapper h.memory node size)) [
        | inl good ↦ (
          use_block mapper node size h,
          rw (within, good, kmalloc_loop),
          use_block-Serves node end b bs h chain below head low (ground arith) (ground arith),
        )
        | inr bad ↦
            let le = Chain-le h.memory (node + 9 + b.size) bs end chain.2 in
            let e : next_address h.memory node ≡ node + 9 + b.size = ground arith in
            let rest =
              kmalloc_loop-Serves fuel (node + 9 + b.size) end bs
                (map_address mapper (node + 9 + b.size) h) (omega arith) chain.2 below.2 head low in
            (
              rest.0,
              rw (within, bad, e, kmalloc_loop) rest.1,
              (
                skip-Served size node end h.memory rest.0.1.memory b bs rest.0.1.heap_head
                    h.heap_head rest.0.0 chain below.0 rest.2.2 below.1 (λ f. ground arith)
                    rest.2.0,
                rest.2.1,
                rest.2.2,
              ),
            )
      ]

  -- `kmalloc` returns, with more fuel than there are blocks and room below 2 ^ 64: the heap is again
  -- a row of blocks from `heap_start` (`chain`, `below`, `head-le`) that grew by the request and a
  -- header at most (`last-le`), and only if no free block has room (`reuse`). A used block starts 9
  -- bytes in front of the returned address, where none did (`begins`, `new`), and its data was held by
  -- nobody and is held now (`fresh`). Every used block stays (`still`), what was held stays held and keeps its contents
  -- (`kept`), and no byte in front of the heap changes (`before`).
  pub kmalloc_lem :
      (fuel end : ℕ) (bs : List Block) (h : Heap mapper)
      → length bs < fuel
      → IsHeap mapper h bs end
      → end + 2 ^ 33 ≤ 2 ^ 64
      → (r : ℕ × Heap mapper) × (kmalloc mapper fuel size h ≡ some r)
        × Serves mapper size h.heap_start bs end h r
  unfolding kmalloc
  kmalloc_lem fuel end bs h enough v low =
      kmalloc_loop-Serves fuel h.heap_start end bs h enough v.chain v.below v.head-le low
