-- ===== src/Kheap/Sequence.antt =====
-- Any sequence of calls of `kmalloc` and `kfree` (src/mem/kheap.c) and of writes by clients that give
-- back and write only what they hold: nobody's memory is handed out again or changed.
use potatos.Base.{
  ℕ, ◌+◌, ◌-◌, ◌^◌, ◌≤◌, ◌<◌, ◌≡◌, inl, inr, refl, true, false, arith, Bool-cases, leb, ◌==◌, ◌&&◌,
  if◌then◌else◌, Option, some, none, List, [], ◌∷◌, length, write8, Memory, u64, sym, ◌∙◌,
}
use mathlib.Core.Path.{subst}
use mathlib.Core.Option.{some-injective}
use potatos.Kheap.{Mapper, Heap, kmalloc, kfree, init_kheap}
use potatos.Kheap.Chain.{Block, held, starts}
use potatos.Kheap.Freed.{TailFits, data_of}
use potatos.Kheap.Malloc.{IsHeap, Serves, kmalloc_lem}
use potatos.Kheap.Free.{Frees, kfree_lem}
use potatos.Kheap.Write.{write8-IsHeap}
use potatos.Kheap.Regions.{
  Region, inside, holders, begun, remove, begun-remove, holders-remove, holder, data_of-same,
  data_of-run, Chain-end,
}

module _ (mapper : Mapper) where
  -- The heap, the regions that clients hold, and what they wrote last into their bytes.
  pub record Clients : Type 0 where
    pub heap : Heap mapper
    pub live : List Region
    pub written : ℕ → Option ℕ

  -- More fuel than blocks, and room behind the row below the end of the address space.
  abbrev pub Roomy : ℕ → Heap mapper → Type 0
  Roomy fuel h =
      (bs : List Block) (end : ℕ)
      → IsHeap mapper h bs end
      → (length bs < fuel) × (end + 2 ^ 33 ≤ 2 ^ 64) × TailFits h.memory end

  pub data Step : Clients → Clients → Type 0 where
    take :
        (s : Clients) (fuel size : ℕ) (r : ℕ × Heap mapper)
        → size < 2 ^ 32
        → Roomy fuel s.heap
        → kmalloc mapper fuel size s.heap ≡ some r
        → Step s (record {
          heap = r.1;
          live = record { start = r.0; size = size } ∷ s.live;
          written =
              λ x. if inside (record { start = r.0; size = size }) x then none else s.written x;
        })
    give :
        (s : Clients) (fuel p : ℕ) (h : Heap mapper)
        → 0 < begun p s.live
        → Roomy fuel s.heap
        → kfree mapper fuel p s.heap ≡ some h
        → Step s (record s { heap = h; live = remove p s.live })
    put :
        (s : Clients) (x v : ℕ)
        → 0 < holders x s.live
        → Step s (record s {
          heap = record s.heap { memory = write8 s.heap.memory x v };
          written = λ y. if y == x then some v else s.written y;
        })

  pub data Reach (s : Clients) : Clients → Type 0 where
    here : Reach s s
    next : {t u : Clients} → Reach s t → Step t u → Reach s u

  -- No byte is in two regions, every byte of a region is in a used block that starts with the region,
  -- and memory shows what was written last.
  pub record IsShared (s : Clients) : Type 0 where
    pub blocks : List Block
    pub end : ℕ
    pub valid : IsHeap mapper s.heap blocks end
    pub behind : 0 < s.heap.heap_start
    pub once : (x : ℕ) → holders x s.live ≤ 1
    pub used : (x : ℕ) → 0 < holders x s.live → held s.heap.heap_start blocks x ≡ true
    pub single : (p : ℕ) → begun p s.live ≤ 1
    pub real : (p : ℕ) → 0 < begun p s.live → starts s.heap.heap_start blocks (p - 9) ≡ true
    pub low : (p : ℕ) → 0 < begun p s.live → 9 ≤ p
    pub reads : (x v : ℕ) → 0 < holders x s.live → s.written x ≡ some v → s.heap.memory x ≡ v

  take-IsShared :
      (s : Clients) (size : ℕ) (r : ℕ × Heap mapper) (v : IsShared s)
      → Serves mapper size s.heap.heap_start v.blocks v.end s.heap r
      → IsShared (record {
        heap = r.1;
        live = record { start = r.0; size = size } ∷ s.live;
        written = λ x. if inside (record { start = r.0; size = size }) x then none else s.written x;
      })
  take-IsShared s size r v serves =
      let d = serves.0 in
      let same : r.1.heap_start ≡ s.heap.heap_start = serves.1 in
      record {
        blocks = d.blocks;
        end = d.last;
        valid = record { chain = rw same d.chain; below = rw same d.below; head-le = d.head-le };
        behind = rw same v.behind;
        once = λ x. ground (arith, v.once x, v.used x, d.fresh x);
        used = λ x h. rw same (ground (arith, v.used x, d.fresh x, d.kept x));
        single = λ p. ground (arith, v.single p, v.real p, d.new);
        real = λ p h. rw same (ground (arith, v.real p, d.still (p - 9), d.begins));
        low = λ p h. ground (arith, v.low p, d.behind);
        reads = λ x w h e. ground (arith, v.reads x w, v.used x, d.kept x);
      }

  -- The regions that are left have nothing in the block that is given back.
  away :
      (s : Clients) (p x : ℕ) (v : IsShared s)
      → 0 < begun p s.live
      → 0 < holders x (remove p s.live)
      → data_of (p - 9) s.heap.heap_start v.blocks x ≡ false
  away s p x v mine h =
      let r = holder x (remove p s.live) h in
      let q = r.0.start in
      let other : begun q (remove p s.live)
          ≡ begun q s.live - (if p == q && leb 1 (begun p s.live) then 1 else 0) =
        begun-remove p q s.live in
      let theirs : 0 < begun q s.live = omega (arith, other, r.2) in
      let enough : 9 ≤ q = v.low q theirs in
      let own : data_of (q - 9) s.heap.heap_start v.blocks x ≡ true =
        data_of-run s.heap.memory (q - 9) r.0.size s.heap.heap_start v.blocks v.end x v.valid.chain
          (v.real q theirs)
          (λ y k l. v.used y (omega (arith, holders-remove p y s.live, r.3 y (ground arith))))
          (ground (arith, r.1)) (ground (arith, r.1)) in
      elim (Bool-cases (data_of (p - 9) s.heap.heap_start v.blocks x)) [
        | inl t ↦
            let e : p - 9 ≡ q - 9 =
              data_of-same (p - 9) (q - 9) s.heap.heap_start v.blocks x t own in
            absurd (ground (arith, v.low p mine, v.single p, other, r.2))
        | inr f ↦ f
      ]

  give-IsShared :
      (s : Clients) (p : ℕ) (h' : Heap mapper) (v : IsShared s)
      → 0 < begun p s.live
      → Frees mapper (p - 9) s.heap.heap_start v.blocks v.end s.heap h'
      → IsShared (record s { heap = h'; live = remove p s.live })
  give-IsShared s p h' v mine frees =
      let d = frees.0 in
      let same : h'.heap_start ≡ s.heap.heap_start = frees.1 in
      let head : h'.heap_head ≡ s.heap.heap_head = frees.2 in
      record {
        blocks = d.blocks;
        end = d.last;
        valid = record {
          chain = rw same d.chain;
          below = rw (same, head) d.below;
          head-le = rw head d.head-le;
        };
        behind = rw same v.behind;
        once = λ x. omega (arith, v.once x, holders-remove p x s.live);
        used = λ x h.
            rw same
              (ground (arith, v.used x, d.holds x, holders-remove p x s.live, away s p x v mine h));
        single = λ q. ground (arith, v.single q, begun-remove p q s.live);
        real = λ q h. rw same (
            ground (
              arith,
              v.real q,
              v.single q,
              begun-remove p q s.live,
              d.begins (q - 9),
              v.low q,
              v.low p mine,
            ));
        low = λ q h. ground (arith, v.low q, begun-remove p q s.live);
        reads =
            λ x w h e. ground (arith, v.reads x w, v.used x, d.kept x, holders-remove p x s.live);
      }

  put-IsShared :
      (s : Clients) (x w : ℕ) (v : IsShared s)
      → 0 < holders x s.live
      → IsShared (record s {
        heap = record s.heap { memory = write8 s.heap.memory x w };
        written = λ y. if y == x then some w else s.written y;
      })
  put-IsShared s x w v mine = record {
    blocks = v.blocks;
    end = v.end;
    valid = write8-IsHeap mapper s.heap v.blocks v.end x w v.valid (v.used x mine);
    behind = v.behind;
    once = v.once;
    used = v.used;
    single = v.single;
    real = v.real;
    low = v.low;
    reads = λ y u h e. ground (arith, v.reads y u h);
  }

  Step-IsShared : {s t : Clients} → Step s t → IsShared s → IsShared t
  Step-IsShared (take s fuel size r small roomy run) v =
      let room = roomy v.blocks v.end v.valid in
      let done = kmalloc_lem mapper size small fuel v.end v.blocks s.heap room.0 v.valid room.1 in
      take-IsShared s size r v (
        subst (Serves mapper size s.heap.heap_start v.blocks v.end s.heap)
          (some-injective _ _ (sym done.1 ∙ run)) done.2)
  Step-IsShared (give s fuel p h mine roomy run) v =
      let room = roomy v.blocks v.end v.valid in
      let done =
        kfree_lem mapper fuel p v.end v.blocks s.heap room.0 v.valid v.behind
          (omega (arith, room.1)) room.2 (v.low p mine) (v.real p mine) in
      give-IsShared s p h v mine (
        subst (Frees mapper (p - 9) s.heap.heap_start v.blocks v.end s.heap)
          (some-injective _ _ (sym done.1 ∙ run)) done.2)
  Step-IsShared (put s x w mine) v = put-IsShared s x w v mine

  -- Through every sequence of requests, of releases of what is held and of writes into what is held,
  -- each made with fuel for the blocks and with room behind them: no byte is in two regions that
  -- clients hold, every byte of a region is in a used block that starts with the region, and a byte of
  -- a region shows what its holder wrote last, if all this holds at the start.
  pub Reach-IsShared : {s t : Clients} → IsShared s → Reach s t → IsShared t
  Reach-IsShared v here = v
  Reach-IsShared v (next r st) = Step-IsShared st (Reach-IsShared v r)

  -- So it is when `init_kheap` has run, and nobody holds anything.
  pub init_kheap-IsShared :
      (heap : ℕ) (memory : Memory) (mappings : mapper.Mappings)
      → heap + 144 < 2 ^ 64
      → IsShared
          (record { heap = init_kheap mapper heap memory mappings; live = []; written = λ x. none })
  unfolding init_kheap
  init_kheap-IsShared heap memory mappings low = record {
    blocks = [];
    end = u64 (heap + 144);
    valid = record { chain = refl; below = tt; head-le = omega arith };
    behind = omega arith;
    once = λ x. omega arith;
    used = λ x h. absurd (omega arith);
    single = λ p. omega arith;
    real = λ p h. absurd (omega arith);
    low = λ p h. absurd (omega arith);
    reads = λ x w h e. absurd (omega arith);
  }

  -- It is enough to look at one row: the memory determines where it ends.
  pub IsHeap-Roomy :
      (fuel : ℕ) (h : Heap mapper) (bs : List Block) (end : ℕ)
      → IsHeap mapper h bs end
      → length bs < fuel
      → end + 2 ^ 33 ≤ 2 ^ 64
      → TailFits h.memory end
      → Roomy fuel h
  IsHeap-Roomy fuel h bs end v enough room tail cs last w =
      let same =
        Chain-end h.memory h.heap_head h.heap_start bs cs end last v.chain v.below v.head-le w.chain
          w.below w.head-le in
      (omega (arith, same.0), omega (arith, same.1), subst (TailFits h.memory) same.1 tail)
