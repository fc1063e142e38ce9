-- ===== src/Kheap.antt =====
-- src/mem/kheap.c: the kernel heap, a row of blocks with 9-byte headers in memory. `heap_head` and
-- `heap_start` are the fields of `*heap`; `memory` is the virtual memory, byte by byte. What is printed
-- is left out, and so are `kheap_print_travel` and `heap_tests`, which only print.
pub mod Chain
pub mod Headers
pub mod Served
pub mod Malloc
pub mod Freed
pub mod Merge
pub mod Free
pub mod Write
pub mod Regions
pub mod Sequence
mod Tests
use potatos.Base.{
  ℕ, zero, suc, ◌+◌, ◌-◌, ◌*◌, ◌/◌, ◌%◌, ◌^◌, Bool, true, false, ◌&&◌, Option, none, some, ltb, leb,
  ◌==◌, if◌then◌else◌, u64, sub64, Memory, write8, read64, write64,
}
use potatos.Paging.{align_to_page}

-- What the heap asks of paging: the state of the mappings, and `map_if_not_mapped` of paging.c.
pub record Mapper : Type 1 where
  pub Mappings : Type 0
  pub map_if_not_mapped : ℕ → Mappings → Mappings

abbrev pub sizeof_heap_node : ℕ
sizeof_heap_node = 9

abbrev pub heap_allocation_used : ℕ
heap_allocation_used = 1

abbrev pub heap_allocation_free : ℕ
heap_allocation_free = 0

-- The fields of the packed `heap_node` at an address.
abbrev pub node_size : Memory → ℕ → ℕ
node_size m node = read64 m node

abbrev pub node_status : Memory → ℕ → ℕ
node_status m node = m (node + 8)

abbrev pub set_size : Memory → ℕ → ℕ → Memory
set_size m node size = write64 m node size

abbrev pub set_status : Memory → ℕ → ℕ → Memory
set_status m node status = write8 m (node + 8) status

-- The address behind the block at `node`.
abbrev pub next_address : Memory → ℕ → ℕ
next_address m node = u64 (node + u64 (node_size m node + sizeof_heap_node))

-- `split`
pub split_block : (starting_address size leftover : ℕ) → Memory → Memory
split_block starting_address size leftover m =
    let splitting_address = u64 (starting_address + size + sizeof_heap_node) in
    let a = set_status (set_size m starting_address size) starting_address heap_allocation_used in
    set_status (set_size a splitting_address leftover) splitting_address heap_allocation_free

-- `kheap_merge`; 0 is `NULL`.
pub merge_next : (current next : ℕ) → Memory → Memory
merge_next current next m =
    if next == 0
    then m
    else (if node_status m next == heap_allocation_free
        then set_size m current
            (u64 (node_size m current + u64 (node_size m next + sizeof_heap_node)))
        else m)

pub merge_previous : (current previous : ℕ) → Memory → Memory
merge_previous current previous m =
    if previous == 0
    then m
    else (if node_status m previous == heap_allocation_free
        then set_size m previous
            (u64 (node_size m previous + u64 (node_size m current + sizeof_heap_node)))
        else m)

pub kheap_merge : (current next previous : ℕ) → Memory → Memory
kheap_merge current next previous m = merge_previous current previous (merge_next current next m)

module _ (mapper : Mapper) where
  open mapper use {Mappings, map_if_not_mapped}

  pub record Heap : Type 0 where
    pub heap_head : ℕ
    pub heap_start : ℕ
    pub memory : Memory
    pub mappings : Mappings

  abbrev pub map_address : ℕ → Heap → Heap
  map_address address h = record h { mappings = map_if_not_mapped address h.mappings }

  -- The loop of `range_map` at address `i`, with `left` rounds to go.
  pub range_map_loop : ℕ → ℕ → Mappings → Mappings
  range_map_loop zero i v = v
  range_map_loop (suc left) i v = range_map_loop left (u64 (i + 4096)) (map_if_not_mapped i v)

  pub range_map : (start_address end_address : ℕ) → Heap → Heap
  unfolding range_map_loop
  range_map start_address end_address h =
      let first = align_to_page start_address in
      let last = align_to_page end_address in
      record h { mappings = range_map_loop ((last - first + 4095) / 4096) first h.mappings }

  -- The end of `kmalloc`, once the block at `node` is chosen: its data is mapped and returned.
  abbrev pub return_block : ℕ → Heap → ℕ × Heap
  return_block node h =
      let return_address = u64 (node + sizeof_heap_node) in
      (return_address, range_map node return_address (map_address return_address h))

  -- `kmalloc` takes the free block at `node`, and splits it if there is room for another header.
  pub use_block : (node size : ℕ) → Heap → ℕ × Heap
  unfolding split_block range_map
  use_block node size h =
      let used = set_status h.memory node heap_allocation_used in
      let size_we_need = size + sizeof_heap_node in
      let size_of_gap = node_size used node in
      let leftover_size = sub64 size_of_gap size_we_need in
      let m =
        if ltb size_we_need size_of_gap then split_block node size leftover_size used else used in
      return_block node (record h { memory = m })

  -- `kmalloc` makes a new block at `node`, behind the last one.
  pub append_block : (node size : ℕ) → Heap → ℕ × Heap
  unfolding range_map
  append_block node size h =
      let m = set_status (set_size h.memory node size) node heap_allocation_used in
      return_block node (record h { memory = m; heap_head = u64 (node + sizeof_heap_node) })

  -- Does the block at `node` serve a request for `size` bytes?
  abbrev pub fits : Memory → (node size : ℕ) → Bool
  fits m node size = leb size (node_size m node) && (node_status m node == heap_allocation_free)

  -- The walk of `kmalloc` over the blocks; `none` if the fuel runs out.
  pub kmalloc_loop : (fuel node size : ℕ) → Heap → Option (ℕ × Heap)
  kmalloc_loop zero node size h = none
  kmalloc_loop (suc fuel) node size h = elim (ltb node h.heap_head) [
    | false ↦ some (append_block node size h)
    | true ↦ elim (fits h.memory node size) [
      | true ↦ some (use_block node size h)
      | false ↦
          let next = next_address h.memory node in kmalloc_loop fuel next size (map_address next h)
    ]
  ]

  pub kmalloc : (fuel size : ℕ) → Heap → Option (ℕ × Heap)
  unfolding kmalloc_loop use_block append_block
  kmalloc fuel size h = kmalloc_loop fuel h.heap_start size h

  -- The walk of `kfree` for the block at `target`; a block that is not found changes nothing.
  pub kfree_loop : (fuel target previous node : ℕ) → Heap → Option Heap
  kfree_loop zero target previous node h = none
  kfree_loop (suc fuel) target previous node h = elim (ltb node h.heap_head) [
    | false ↦ some h
    | true ↦
        let next = next_address h.memory node in
        elim ((node == target) && (node_status h.memory node == heap_allocation_used)) [
          | true ↦ some (record h {
            memory = kheap_merge node next previous (set_status h.memory node heap_allocation_free);
          })
          | false ↦ kfree_loop fuel target node next h
        ]
  ]

  pub kfree : (fuel ptr : ℕ) → Heap → Option Heap
  unfolding kfree_loop kheap_merge merge_next merge_previous
  kfree fuel ptr h = kfree_loop fuel (sub64 ptr sizeof_heap_node) 0 h.heap_start h

  -- `init_kheap`, with the address that `vmm_allocate` returned; `heap + 9` counts in `heap_root`s of
  -- 16 bytes.
  pub init_kheap : (heap : ℕ) → Memory → Mappings → Heap
  init_kheap heap memory mappings = record {
    heap_head = u64 (heap + 16 * sizeof_heap_node);
    heap_start = u64 (heap + 16 * sizeof_heap_node);
    memory = memory;
    mappings = mappings;
  }
