-- ===== src/Text/Move.antt =====
-- `memmove` of src/lib/string.c, which copies by way of a block of the heap of src/mem/kheap.c.
use potatos.Base.{
  ℕ, zero, suc, ◌+◌, ◌-◌, ◌^◌, ◌≤◌, ◌<◌, ◌≡◌, refl, ◌∙◌, ap, inl, inr, Bool, true, false,
  Bool-cases, arith, if◌then◌else◌, Option, none, some, List, Memory, write8, read_bytes_congr,
}
use potatos.Kheap.{Mapper, Heap, kmalloc, kfree, node_size}
use potatos.Kheap.Chain.{Block, Chain, held, held-within}
use potatos.Kheap.Freed.{TailFits}
use potatos.Kheap.Malloc.{IsHeap, kmalloc_lem}
use potatos.Kheap.Free.{kfree_lem}
use potatos.Kheap.Write.{write8-IsHeap}
use potatos.Kheap.Sequence.{Roomy}
use potatos.Text.{copy_loop}
use potatos.Text.Copy.{within, IsForward, copy_loop_lem}

-- Two rows of bytes, one with a property that the other lacks, do not overlap.
apart :
    (p q n : ℕ) (f : ℕ → Bool)
    → ((x : ℕ) → p ≤ x → x < p + n → f x ≡ false)
    → ((x : ℕ) → q ≤ x → x < q + n → f x ≡ true)
    → IsForward p q n × IsForward q p n
apart p q n f out inner = (ground (arith, out p, inner p), ground (arith, out q, inner q))

copied :
    (d s n : ℕ) (m : Memory) (x : ℕ)
    → IsForward d s n
    → copy_loop n 0 d s m x ≡ (if within d n x then m (s + (x - d)) else m x)
copied d s n m x safe = ground (arith, copy_loop_lem n 0 d s m x)

-- Both copies, by way of `r`, where nothing was held: `f` says what was held, and `m1` agrees with `m`
-- there.
copied_twice :
    (r d s n : ℕ) (f : ℕ → Bool) (m m1 : Memory)
    → ((x : ℕ) → r ≤ x → x < r + n → f x ≡ false)
    → ((x : ℕ) → s ≤ x → x < s + n → f x ≡ true)
    → ((x : ℕ) → d ≤ x → x < d + n → f x ≡ true)
    → ((x : ℕ) → f x ≡ true → m1 x ≡ m x)
    → (x : ℕ) → f x ≡ true
    → copy_loop n 0 d r (copy_loop n 0 r s m1) x ≡ (if within d n x then m (s + (x - d)) else m x)
copied_twice r d s n f m m1 free from into kept x mine =
    let first = λ (y : ℕ). copied r s n m1 y (apart r s n f free from).0 in
    let second = copied d r n (copy_loop n 0 r s m1) x (apart r d n f free into).1 in
    second ∙ elim (Bool-cases (within d n x)) [
      | inl inner ↦
          let place : s + (r + (x - d) - r) ≡ s + (x - d) = omega arith in
          let source : within r n (r + (x - d)) ≡ true = ground arith in
          let there = from (s + (x - d)) (omega arith) (ground arith) in
          rw inner (first (r + (x - d)) ∙ rw source (ap m1 place ∙ kept (s + (x - d)) there))
      | inr outer ↦
          let away : within r n x ≡ false = ground (arith, free x) in
          rw outer (first x ∙ rw away (kept x mine))
    ]

-- Neither copy writes outside its target.
unmoved :
    (r d s n : ℕ) (m1 : Memory) (x : ℕ)
    → IsForward r s n
    → IsForward d r n
    → within r n x ≡ false
    → within d n x ≡ false
    → copy_loop n 0 d r (copy_loop n 0 r s m1) x ≡ m1 x
unmoved r d s n m1 x first second out away =
    copied d r n (copy_loop n 0 r s m1) x second ∙ rw away (copied r s n m1 x first ∙ rw out refl)

-- Held bytes are not behind the row.
beyond :
    (a n : ℕ) (m : Memory) (node : ℕ) (bs : List Block) (end x : ℕ)
    → Chain m node bs end
    → ((y : ℕ) → a ≤ y → y < a + n → held node bs y ≡ true)
    → end ≤ x
    → within a n x ≡ false
beyond a n m node bs end x chain mine far =
    ground (arith, held-within m node bs end x chain, mine x)

module _ (mapper : Mapper) where
  -- The destination is returned; the heap that is left is the state.
  pub memmove : (fuel destination source num : ℕ) → Heap mapper → Option (Heap mapper)
  unfolding copy_loop
  memmove fuel destination source num h = elim (kmalloc mapper fuel num h) [
    | none ↦ none
    | some (temp, h1) ↦
        let h2 = record h1 { memory = copy_loop num 0 temp source h1.memory } in
        let h3 = record h2 { memory = copy_loop num 0 destination temp h2.memory } in
        kfree mapper fuel temp h3
  ]

  -- A loop that writes into what is held leaves the row of blocks.
  copy_loop-IsHeap :
      (left i d s : ℕ) (h : Heap mapper) (bs : List Block) (end : ℕ)
      → IsHeap mapper h bs end
      → ((k : ℕ) → i ≤ k → k < i + left → held h.heap_start bs (d + k) ≡ true)
      → IsHeap mapper (record h { memory = copy_loop left i d s h.memory }) bs end
  unfolding copy_loop
  copy_loop-IsHeap zero i d s h bs end valid mine = valid
  copy_loop-IsHeap (suc left) i d s h bs end valid mine =
      copy_loop-IsHeap left (i + 1) d s
        (record h { memory = write8 h.memory (d + i) (h.memory (s + i)) }) bs end
        (write8-IsHeap mapper h bs end (d + i) (h.memory (s + i)) valid
          (mine i (omega arith) (omega arith)))
        (λ k p q. mine k (omega arith) (omega arith))

  -- A write in front of the end leaves what is behind it.
  TailFits-same :
      (m m' : Memory) (end : ℕ)
      → ((x : ℕ) → end ≤ x → m' x ≡ m x)
      → TailFits m end
      → TailFits m' end
  TailFits-same m m' end same tail free =
      let size : node_size m' end ≡ node_size m end =
        read_bytes_congr 8 m m' end (λ x p q. same x p) in
      let status = same (end + 8) (omega arith) in
      omega (arith, size, tail (omega (arith, status, free)))

  -- Once a block is taken, both copies and the release run.
  memmove_step :
      (fuel d s num : ℕ) (h : Heap mapper) {r : ℕ × Heap mapper} {h' : Heap mapper}
      → kmalloc mapper fuel num h ≡ some r
      → kfree mapper fuel r.0
          (record r.1 { memory = copy_loop num 0 d r.0 (copy_loop num 0 r.0 s r.1.memory) })
        ≡ some h'
      → memmove fuel d s num h ≡ some h'
  unfolding memmove
  memmove_step fuel d s num h take give = rw (memmove, take) give

  -- `memmove` of bytes that used blocks hold, into bytes that used blocks hold, returns, wherever the
  -- two rows of bytes overlap, with fuel for the blocks and room behind them, at the start and once the
  -- heap has given out a block: the destination has the bytes that the source had, every other byte
  -- that a used block held is as before, and the heap is a row of blocks.
  pub memmove_lem :
      (fuel d s num end : ℕ) (bs : List Block) (h : Heap mapper)
      → num < 2 ^ 32
      → 0 < h.heap_start
      → IsHeap mapper h bs end
      → Roomy mapper fuel h
      → ((r : ℕ × Heap mapper) → kmalloc mapper fuel num h ≡ some r → Roomy mapper fuel r.1)
      → ((x : ℕ) → s ≤ x → x < s + num → held h.heap_start bs x ≡ true)
      → ((x : ℕ) → d ≤ x → x < d + num → held h.heap_start bs x ≡ true)
      → (h' : Heap mapper) × (memmove fuel d s num h ≡ some h')
        × ((x : ℕ)
            → held h.heap_start bs x ≡ true
            → h'.memory x ≡ (if within d num x then h.memory (s + (x - d)) else h.memory x))
        × (bs' : List Block) × (end' : ℕ) × IsHeap mapper h' bs' end'
  memmove_lem fuel d s num end bs h small low valid roomy later from into =
      let room = roomy bs end valid in
      let (r, take, serves) = kmalloc_lem mapper num small fuel end bs h room.0 valid room.1 in
      let v = serves.0 in
      let same : r.1.heap_start ≡ h.heap_start = serves.1 in
      let taken : IsHeap mapper r.1 v.blocks v.last = record {
        chain = rw same v.chain;
        below = rw same v.below;
        head-le = v.head-le;
      } in
      let spare = later r take v.blocks v.last taken in
      let free = λ (x : ℕ) (p : r.0 ≤ x) (q : x < r.0 + num). (v.fresh x p q).0 in
      let m2 = copy_loop num 0 r.0 s r.1.memory in
      let m3 = copy_loop num 0 d r.0 m2 in
      let filled : IsHeap mapper (record r.1 { memory = m2 }) v.blocks v.last =
        copy_loop-IsHeap num 0 r.0 s r.1 v.blocks v.last taken
          (λ k p q. rw same (v.fresh (r.0 + k) (omega arith) (omega arith)).1) in
      let moved : IsHeap mapper (record r.1 { memory = m3 }) v.blocks v.last =
        copy_loop-IsHeap num 0 d r.0 (record r.1 { memory = m2 }) v.blocks v.last filled
          (λ k p q. rw same (v.kept (d + k) (into (d + k) (omega arith) (omega arith))).0) in
      let tail : TailFits m3 v.last =
        TailFits-same r.1.memory m3 v.last
          (λ x p.
            unmoved r.0 d s num r.1.memory x (apart r.0 s num (held h.heap_start bs) free from).0
              (apart r.0 d num (held h.heap_start bs) free into).1
              (beyond r.0 num r.1.memory h.heap_start v.blocks v.last x v.chain
                (λ y k l. (v.fresh y k l).1) p)
              (beyond d num r.1.memory h.heap_start v.blocks v.last x v.chain
                (λ y k l. (v.kept y (into y k l)).0) p))
          spare.2 in
      let (h', give, frees) =
        kfree_lem mapper fuel r.0 v.last v.blocks (record r.1 { memory = m3 }) spare.0 moved
          (rw same low) (omega (arith, spare.1)) tail (omega (arith, v.behind))
          (rw same v.begins) in
      (
        h',
        memmove_step fuel d s num h take give,
        (λ x mine.
            frees.0.kept x (rw same (v.kept x mine).0)
            ∙ copied_twice r.0 d s num (held h.heap_start bs) h.memory r.1.memory free from into
                (λ y held. (v.kept y held).1) x mine),
        frees.0.blocks,
        frees.0.last,
        record {
          chain = rw frees.1 frees.0.chain;
          below = rw (frees.1, frees.2) frees.0.below;
          head-le = rw frees.2 frees.0.head-le;
        },
      )
