-- ===== src/Kheap/Tests.antt =====
-- The heap at work, and its theorems at concrete heaps.
use potatos.Base.{
  true, ◌-◌, ◌+◌, ℕ, ◌≡◌, refl, arith, ◌==◌, if◌then◌else◌, Option, some, none, List, [], ◌∷◌,
  write8, read_bytes, write_bytes,
}
use potatos.Kheap.{Mapper, Heap, kmalloc, kfree, kheap_merge, init_kheap}
use potatos.Kheap.Chain.{Block, held}
use mathlib.Core.Path.{subst}
use potatos.Text.Copy.{within}
use potatos.Text.Move.{memmove, memmove_lem}
use potatos.Kheap.Malloc.{IsHeap, Serves, kmalloc_lem}
use potatos.Kheap.Free.{Frees, kfree_lem, kfree-unknown}
use potatos.Kheap.Regions.{inside}
use potatos.Kheap.Sequence.{
  Clients, IsHeap-Roomy, Roomy, Reach, take, put, here, next, IsShared, init_kheap-IsShared,
  Reach-IsShared,
}

-- Everything is mapped.
abbrev mapped : Mapper
mapped = record { Mappings = Unit {0}; map_if_not_mapped = λ a v. v }

-- A heap at 100 over memory that is 0.
abbrev fresh : Heap mapped
fresh = record { heap_head = 100; heap_start = 100; memory = λ a. 0; mappings = tt }

fresh-IsHeap : IsHeap mapped fresh [] 100
fresh-IsHeap = record { chain = refl; below = tt; head-le = omega arith }

-- A used block of 30 bytes at 100.
abbrev one : Heap mapped
one = record {
  heap_head = 109;
  heap_start = 100;
  memory = λ a. if a == 100 then 30 else if a == 108 then 1 else if a == 147 then 1 else 0;
  mappings = tt;
}

abbrev one_block : List Block
one_block = record { size = 30; status = 1 } ∷ []

one-IsHeap : IsHeap mapped one one_block 139
unfolding read_bytes
one-IsHeap = record {
  chain = (refl, refl, refl);
  below = (omega arith, omega arith, tt);
  head-le = omega arith;
}

-- Three requests, the first of which is given back: the fourth request finds its place again.
abbrev address : Option (ℕ × Heap mapped) → ℕ
address none = 0
address (some r) = r.0

abbrev heap_of : Option (ℕ × Heap mapped) → Heap mapped
heap_of none = fresh
heap_of (some r) = r.1

abbrev freed_of : Option (Heap mapped) → Heap mapped
freed_of none = fresh
freed_of (some h) = h

reuse_test :
    let a = kmalloc mapped 9 30 fresh in
    let b = kmalloc mapped 9 8 (heap_of a) in
    let h = freed_of (kfree mapped 9 (address a) (heap_of b)) in
    let c = kmalloc mapped 9 4 h in
    let d = kmalloc mapped 9 17 (heap_of c) in
    (address a ≡ 109) × (address b ≡ 148) × (address c ≡ 109) × (address d ≡ 122)
unfolding kmalloc kfree read_bytes write_bytes kheap_merge
reuse_test = (refl, refl, refl, refl)

kmalloc_lem_example :
    (r : ℕ × Heap mapped) × (kmalloc mapped 2 10 one ≡ some r)
    × Serves mapped 10 100 one_block 139 one r
kmalloc_lem_example =
    kmalloc_lem mapped 10 (omega arith) 2 139 one_block one (omega arith) one-IsHeap (omega arith)

kfree_lem_example :
    (h : Heap mapped) × (kfree mapped 2 109 one ≡ some h) × Frees mapped 100 100 one_block 139 one h
kfree_lem_example =
    kfree_lem mapped 2 109 139 one_block one (omega arith) one-IsHeap (omega arith) (omega arith)
      (λ e. absurd (omega arith)) (omega arith) refl

kfree-unknown_example : kfree mapped 2 120 one ≡ some one
kfree-unknown_example =
    kfree-unknown mapped 2 120 139 one_block one (omega arith) one-IsHeap (omega arith) refl

-- Nobody holds anything yet.
abbrev nobody : Clients mapped
nobody = record { heap = init_kheap mapped 1000 (λ a. 0) tt; live = []; written = λ x. none }

nobody-Roomy : Roomy mapped 1 nobody.heap
unfolding init_kheap read_bytes
nobody-Roomy [] end v =
    let z : read_bytes 8 (λ a. 0) end ≡ 0 = refl in
    (omega arith, omega (arith, v.chain), λ e. omega (arith, v.chain, z))
nobody-Roomy (b ∷ bs) end v = absurd (omega (arith, v.below.0))

-- A client took 2 bytes.
abbrev somebody : Clients mapped
somebody = record {
  heap = heap_of (kmalloc mapped 1 2 nobody.heap);
  live = record { start = 1153; size = 2 } ∷ [];
  written = λ x. if inside (record { start = 1153; size = 2 }) x then none else none;
}

-- ... and wrote 7 into the first.
abbrev writer : Clients mapped
writer = record {
  heap = record somebody.heap { memory = write8 somebody.heap.memory 1153 7 };
  live = somebody.live;
  written = λ y. if y == 1153 then some 7 else somebody.written y;
}

nobody-Reach : Reach mapped nobody writer
unfolding init_kheap kmalloc read_bytes write_bytes
nobody-Reach =
    next
      (next here (
        take nobody 1 2 (1153, heap_of (kmalloc mapped 1 2 nobody.heap)) (omega arith) nobody-Roomy
          refl))
      (put somebody 1153 7 (omega arith))

Reach-IsShared_example : IsShared mapped writer
Reach-IsShared_example =
    Reach-IsShared mapped (init_kheap-IsShared mapped 1000 (λ a. 0) tt (omega arith)) nobody-Reach

-- The heap that has given out 10 bytes.
abbrev lent : Heap mapped
lent = heap_of (kmalloc mapped 9 10 one)

lent-IsHeap :
    IsHeap mapped lent
      (record { size = 30; status = 1 } ∷ record { size = 10; status = 1 } ∷ [])
      158
unfolding kmalloc read_bytes write_bytes
lent-IsHeap = record {
  chain = (refl, refl, (refl, refl, refl));
  below = (omega arith, omega arith, (omega arith, omega arith, tt));
  head-le = omega arith;
}

lent-Roomy : (r : ℕ × Heap mapped) → kmalloc mapped 9 10 one ≡ some r → Roomy mapped 9 r.1
unfolding kmalloc read_bytes write_bytes
lent-Roomy r e =
    subst (λ (t : Option (ℕ × Heap mapped)). Roomy mapped 9 (heap_of t)) e
      (IsHeap-Roomy mapped 9 lent _ 158 lent-IsHeap (omega arith) (omega arith) (λ z. omega arith))

-- Ten bytes are moved by three.
memmove_lem_example :
    (h' : Heap mapped) × (memmove mapped 9 112 109 10 one ≡ some h')
    × ((x : ℕ)
        → held 100 one_block x ≡ true
        → h'.memory x ≡ (if within 112 10 x then one.memory (109 + (x - 112)) else one.memory x))
    × (bs' : List Block) × (end' : ℕ) × IsHeap mapped h' bs' end'
memmove_lem_example =
    memmove_lem mapped 9 112 109 10 139 one_block one (omega arith) (omega arith) one-IsHeap
      (IsHeap-Roomy mapped 9 one one_block 139 one-IsHeap (omega arith) (omega arith)
        (λ z. absurd (omega (arith, z))))
      lent-Roomy (λ x p q. ground arith) (λ x p q. ground arith)
