-- ===== src/Kheap/Write.antt =====
-- A client of the heap of src/mem/kheap.c writes into its data.
use potatos.Base.{ℕ, ◌≡◌, true, arith, List, write8}
use potatos.Kheap.{Mapper, Heap}
use potatos.Kheap.Chain.{Block, held, Chain-write}
use potatos.Kheap.Malloc.{IsHeap}

-- A write of a byte that a used block holds leaves the row of blocks as it is.
pub write8-IsHeap :
    (mapper : Mapper) (h : Heap mapper) (bs : List Block) (end x v : ℕ)
    → IsHeap mapper h bs end
    → held h.heap_start bs x ≡ true
    → IsHeap mapper (record h { memory = write8 h.memory x v }) bs end
write8-IsHeap mapper h bs end x v valid mine = record {
  chain =
      Chain-write h.memory (write8 h.memory x v) h.heap_start bs end x (λ y n. ground arith) mine
        valid.chain;
  below = valid.below;
  head-le = valid.head-le;
}
