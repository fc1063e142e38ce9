-- ===== src/Kheap/Free.antt =====
-- `kfree` of src/mem/kheap.c.
use potatos.Base.{
  ℕ, zero, suc, ◌+◌, ◌-◌, ◌^◌, ◌≤◌, ◌<◌, ◌≡◌, refl, ◌∙◌, Bool, true, false, ◌&&◌, arith, ltb, ◌==◌,
  Bool-cases, inl, inr, List, [], ◌∷◌, length, some, sub64, Memory, lt→ltb,
}
use potatos.Kheap.{
  Mapper, Heap, next_address, kfree_loop, kfree, kheap_merge, node_status, set_status,
}
use potatos.Kheap.Chain.{Block, Chain, Below, Chain-le, starts, starts-within}
use potatos.Kheap.Freed.{Freed, TailFits}
use potatos.Kheap.Merge.{skip-Freed, kheap_merge_first, kheap_merge_behind}
use potatos.Kheap.Malloc.{IsHeap}

-- Is this the block that `kfree` looks for?
abbrev is_target : Memory → (node target : ℕ) → Bool
is_target m node target = (node == target) && (node_status m node == 1)

next_address_lem :
    (m : Memory) (node : ℕ) (b : Block) (bs : List Block) (end : ℕ)
    → Chain m node (b ∷ bs) end
    → end < 2 ^ 64
    → next_address m node ≡ node + 9 + b.size
next_address_lem m node b bs end chain low =
    let le = Chain-le m (node + 9 + b.size) bs end chain.2 in ground arith

module _ (mapper : Mapper) where
  -- A call of `kfree` that freed the block at `target`.
  abbrev pub Frees : ℕ → ℕ → List Block → ℕ → Heap mapper → Heap mapper → Type 0
  Frees target node bs end h h' =
      Freed target node bs end h.memory h'.memory h.heap_head
      × (h'.heap_start ≡ h.heap_start)
      × (h'.heap_head ≡ h.heap_head)

  -- The heap that `kfree` leaves when it finds the block at `node` behind `previous`.
  abbrev after_merge : (node previous : ℕ) → Heap mapper → Heap mapper
  after_merge node previous h = record h {
    memory = kheap_merge node (next_address h.memory node) previous (set_status h.memory node 0);
  }

  -- One round of the walk, at a block that is not the target.
  kfree_loop_step :
      (fuel target previous node next : ℕ) (h : Heap mapper)
      → node < h.heap_head
      → is_target h.memory node target ≡ false
      → next_address h.memory node ≡ next
      → kfree_loop mapper (suc fuel) target previous node h
        ≡ kfree_loop mapper fuel target node next h
  unfolding kfree_loop
  kfree_loop_step fuel target previous node next h within other e =
      rw (lt→ltb _ _ within, other, e, kfree_loop)

  kfree_loop-Frees :
      (fuel target previous end : ℕ) (p : Block) (bs : List Block) (h : Heap mapper)
      → length bs < fuel
      → 0 < previous
      → Chain h.memory previous (p ∷ bs) end
      → Below h.heap_head previous (p ∷ bs)
      → h.heap_head ≤ end
      → end < 2 ^ 64
      → TailFits h.memory end
      → starts (previous + 9 + p.size) bs target ≡ true
      → (h' : Heap mapper) × (kfree_loop mapper fuel target previous (previous + 9 + p.size) h
          ≡ some h')
        × Frees target previous (p ∷ bs) end h h'
  unfolding kfree_loop
  kfree_loop-Frees zero target previous end p bs h enough pos chain below head low tail found =
      absurd (omega arith)
  kfree_loop-Frees (suc fuel) target previous end p [] h enough pos chain below head low tail
        found =
      cc
  kfree_loop-Frees (suc fuel) target previous end p (b ∷ bs) h enough pos chain below head low tail
        found =
      let node = previous + 9 + p.size in
      let within : ltb node h.heap_head ≡ true = ground arith in
      let e = next_address_lem h.memory node b bs end chain.2 low in
      elim (Bool-cases (is_target h.memory node target)) [
        | inl this ↦
            let same : node ≡ target = ground arith in
            let done =
              kheap_merge_behind b bs end h.heap_head h.memory head low tail (ground arith) previous
                p pos chain below in
            (
              after_merge node previous h,
              rw (within, this, kfree_loop),
              (rw (← same, e) done, refl, refl),
            )
        | inr other ↦
            let rest =
              kfree_loop-Frees fuel target node end b bs h (omega arith) (omega arith) chain.2
                below.2 head low tail (ground arith) in
            let past : previous < target = omega (
              arith,
              starts-within h.memory (node + 9 + b.size) bs end target chain.2.2 (ground arith),
            ) in
            (
              rest.0,
              kfree_loop_step fuel target previous node (node + 9 + b.size) h below.2.0 other e
                  ∙ rest.1,
              (
                skip-Freed target previous p (b ∷ bs) end h.heap_head h.memory rest.0.memory chain
                    below.0 below.1 past rest.2.0,
                rest.2.1,
                rest.2.2,
              ),
            )
      ]

  kfree_from_start :
      (fuel target end : ℕ) (bs : List Block) (h : Heap mapper)
      → length bs < fuel
      → IsHeap mapper h bs end
      → 0 < h.heap_start
      → end < 2 ^ 64
      → TailFits h.memory end
      → starts h.heap_start bs target ≡ true
      → (h' : Heap mapper) × (kfree_loop mapper fuel target 0 h.heap_start h ≡ some h')
        × Frees target h.heap_start bs end h h'
  unfolding kfree_loop
  kfree_from_start zero target end bs h enough v pos low tail found = absurd (omega arith)
  kfree_from_start (suc fuel) target end [] h enough v pos low tail found = cc
  kfree_from_start (suc fuel) target end (b ∷ bs) h enough v pos low tail found =
      let node = h.heap_start in
      let within : ltb node h.heap_head ≡ true = lt→ltb _ _ v.below.0 in
      let e = next_address_lem h.memory node b bs end v.chain low in
      elim (Bool-cases (is_target h.memory node target)) [
        | inl this ↦
            let same : node ≡ target = ground arith in
            let done =
              kheap_merge_first b bs end h.heap_head h.memory v.head-le low tail (ground arith) node
                v.chain v.below in
            (after_merge node 0 h, rw (within, this, kfree_loop), (rw (← same, e) done, refl, refl))
        | inr other ↦
            let rest =
              kfree_loop-Frees fuel target node end b bs h (omega arith) pos v.chain v.below
                v.head-le low tail (ground arith) in
            (
              rest.0,
              kfree_loop_step fuel target 0 node (node + 9 + b.size) h v.below.0 other e ∙ rest.1,
              rest.2,
            )
      ]

  -- `kfree` returns and frees the used block whose data starts at `ptr`, with more fuel than there are
  -- blocks, if the row starts behind address 0 and ends below 2 ^ 64, and if a header behind the row
  -- that looks free fits the address space. The heap is again a row of blocks from `heap_start`
  -- (`chain`, `below`, `head-le`) that ends where it ended or behind such a header (`ends`); exactly
  -- the freed data is held no longer (`holds`), exactly the freed block is used no longer (`begins`),
  -- and what was held keeps its contents (`kept`).
  pub kfree_lem :
      (fuel ptr end : ℕ) (bs : List Block) (h : Heap mapper)
      → length bs < fuel
      → IsHeap mapper h bs end
      → 0 < h.heap_start
      → end < 2 ^ 64
      → TailFits h.memory end
      → 9 ≤ ptr
      → starts h.heap_start bs (ptr - 9) ≡ true
      → (h' : Heap mapper) × (kfree mapper fuel ptr h ≡ some h')
        × Frees (ptr - 9) h.heap_start bs end h h'
  unfolding kfree
  kfree_lem fuel ptr end bs h enough v pos low tail real found =
      let inside = starts-within h.memory h.heap_start bs end (ptr - 9) v.chain found in
      let e : sub64 ptr 9 ≡ ptr - 9 = omega arith in
      rw e (kfree_from_start fuel (ptr - 9) end bs h enough v pos low tail found)

  kfree_loop-unknown :
      (fuel target previous node end : ℕ) (bs : List Block) (h : Heap mapper)
      → length bs < fuel
      → Chain h.memory node bs end
      → Below h.heap_head node bs
      → h.heap_head ≤ end
      → end < 2 ^ 64
      → starts node bs target ≡ false
      → kfree_loop mapper fuel target previous node h ≡ some h
  unfolding kfree_loop
  kfree_loop-unknown zero target previous node end bs h enough chain below head low missing =
      absurd (omega arith)
  kfree_loop-unknown (suc fuel) target previous node end [] h enough chain below head low missing =
      let out : ltb node h.heap_head ≡ false = ground arith in rw (out, kfree_loop)
  kfree_loop-unknown (suc fuel) target previous node end (b ∷ bs) h enough chain below head low
        missing =
      let other : is_target h.memory node target ≡ false = ground arith in
      kfree_loop_step fuel target previous node (node + 9 + b.size) h below.0 other
        (next_address_lem h.memory node b bs end chain low)
      ∙ kfree_loop-unknown fuel target node (node + 9 + b.size) end bs h (omega arith) chain.2
          below.2 head low (ground arith)

  -- `kfree` of an address at which no used block's data starts, such as one that is freed already,
  -- returns and changes nothing.
  pub kfree-unknown :
      (fuel ptr end : ℕ) (bs : List Block) (h : Heap mapper)
      → length bs < fuel
      → IsHeap mapper h bs end
      → end < 2 ^ 64
      → starts h.heap_start bs (sub64 ptr 9) ≡ false
      → kfree mapper fuel ptr h ≡ some h
  unfolding kfree
  kfree-unknown fuel ptr end bs h enough v low missing =
      kfree_loop-unknown fuel (sub64 ptr 9) 0 h.heap_start end bs h enough v.chain v.below v.head-le
        low missing
