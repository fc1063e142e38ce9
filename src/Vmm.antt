-- ===== src/Vmm.antt =====
-- src/mem/vmm.c and include/mem/vmm.h: the list of regions of virtual memory. `regions` are the list's
-- nodes by their addresses. Paging and the physical pages enter by the operations that the functions
-- call, on a state `P` of their own. What is printed is left out.
pub mod Places
pub mod Walk
pub mod Links
pub mod Allocate
pub mod Free
pub mod Start
mod Tests
use potatos.Base.{
  ℕ, zero, suc, ◌+◌, ◌-◌, ◌*◌, ◌/◌, ◌%◌, Bool, true, false, ◌&&◌, not, Option, none, some, ◌==◌,
  if◌then◌else◌, leb, bit_and, bit_or, u64, sub64, page_size,
}

pub record VmmRegion : Type 0 where
  pub next : ℕ
  pub size : ℕ

abbrev pub sizeof_region : ℕ
sizeof_region = 16

-- Of paging.c and bitmap.c, with a call that returns.
pub record PageOps (P : Type 0) : Type 0 where
  pub allocate_physical_page : P → ℕ × P
  pub map_page : (virtual_address physical_address flags : ℕ) → P → P
  pub get_physical_address : ℕ → P → ℕ
  pub set_page_free : ℕ → P → P
  pub set_page_used : ℕ → P → P

pub record Vmm (P : Type 0) : Type 0 where
  pub regions : ℕ → VmmRegion
  pub vm_root : ℕ
  pub pages : P

abbrev pub set_next : (a next : ℕ) → (ℕ → VmmRegion) → ℕ → VmmRegion
set_next a next regions b = if a == b then record (regions a) { next = next } else regions b

abbrev pub set_size : (a size : ℕ) → (ℕ → VmmRegion) → ℕ → VmmRegion
set_size a size regions b = if a == b then record (regions a) { size = size } else regions b

abbrev pub one_gigabyte : ℕ
one_gigabyte = 0x4000_0000

pub align_to_nearest_page : ℕ → ℕ
align_to_nearest_page value = u64 (value + page_size - 1) / page_size * page_size

-- The loop of `vmm_allocate`: the node in front of the new region, and whether a gap follows it; `none`
-- if the fuel runs out.
pub walk : (fuel size current prev : ℕ) → (ℕ → VmmRegion) → Option (ℕ × Bool)
walk zero size current prev regions = none
walk (suc fuel) size current prev regions =
    let gap_area = sub64 current (u64 (prev + (regions prev).size)) in
    let rest = walk fuel size (regions current).next current regions in
    if current == 0
    then some (prev, false)
    else if not (prev == 0) && leb size gap_area
    then some (prev, true)
    else rest

-- What the function does to the nodes: in a gap, and behind the last one.
abbrev pub link_in_gap : (current size prev : ℕ) → (ℕ → VmmRegion) → ℕ → VmmRegion
link_in_gap current size prev regions =
    let sized = set_size current size regions in
    let linked = set_next current (sized prev).next sized in
    set_next prev current (set_size current size (set_next prev current linked))

abbrev pub link_at_end : (current size prev : ℕ) → (ℕ → VmmRegion) → ℕ → VmmRegion
link_at_end current size prev regions =
    set_next prev current (set_size current size (set_next current 0 regions))

-- The nodes after the loop of `vmm_allocate` has stopped, in a gap or at the end.
pub linked_nodes : (gap : Bool) (current size prev : ℕ) → (ℕ → VmmRegion) → ℕ → VmmRegion
linked_nodes gap current size prev regions =
    if gap then link_in_gap current size prev regions else link_at_end current size prev regions

-- `if (current->size == 0) current->size = PAGE_SIZE;`
abbrev pub size_root : (root : ℕ) → (ℕ → VmmRegion) → ℕ → VmmRegion
size_root root regions =
    if (regions root).size == 0 then set_size root page_size regions else regions

module _ {P : Type 0} (ops : PageOps P) where
  -- The loop of `vmm_allocate_area` at offset `i`, with `left` rounds to go.
  pub area_loop : (left i new_virtual_address : ℕ) → P → P
  area_loop zero i new_virtual_address pages = pages
  area_loop (suc left) i new_virtual_address pages =
      let (physical_address, rest) = ops.allocate_physical_page pages in
      area_loop left (i + page_size) new_virtual_address
        (ops.map_page (u64 (new_virtual_address + i)) physical_address (bit_or 1 2) rest)

  pub vmm_allocate_area : (new_virtual_address size : ℕ) → P → P
  unfolding area_loop
  vmm_allocate_area new_virtual_address size pages =
      area_loop ((size + page_size - 1) / page_size) 0 new_virtual_address pages

  -- The address that is returned and the state. In a gap it is `sizeof(vmm_region)` nodes, not bytes,
  -- behind the node.
  pub vmm_allocate : (fuel size : ℕ) → Vmm P → Option (ℕ × Vmm P)
  vmm_allocate fuel size s =
      let full = align_to_nearest_page (u64 (size + sizeof_region)) in
      let regions = size_root s.vm_root s.regions in
      elim (walk fuel full s.vm_root 0 regions) [
        | none ↦ none
        | some (prev, gap) ↦
            let current = u64 (prev + (regions prev).size) in
            let linked = linked_nodes gap current full prev regions in
            some (
              u64 (current + (if gap then sizeof_region * sizeof_region else sizeof_region)),
              record s { regions = linked; pages = vmm_allocate_area current full s.pages },
            )
      ]

  -- The loop of `vmm_free`.
  pub free_loop : (fuel target_address current prev : ℕ) → Vmm P → Option (Vmm P)
  free_loop zero target_address current prev s = none
  free_loop (suc fuel) target_address current prev s =
      let rest = free_loop fuel target_address (s.regions current).next current s in
      let physical_address = ops.get_physical_address target_address s.pages in
      let freed = ops.set_page_free (physical_address / page_size) s.pages in
      if current == 0
      then some s
      else if current == target_address
      then some (record s {
        regions = set_next prev (s.regions current).next s.regions;
        pages = ops.map_page target_address 0 0 freed;
      })
      else rest

  pub vmm_free : (fuel address : ℕ) → Vmm P → Option (Vmm P)
  unfolding free_loop
  vmm_free fuel address s = free_loop fuel (sub64 address sizeof_region) s.vm_root 0 s

  -- `init_vmm`, with the address of the linker's symbol: the sum counts in words of 8 bytes. Together with
  -- the address that `init_kheap` gets for the heap.
  pub init_vmm : (fuel vmm_area : ℕ) → Vmm P → Option (ℕ × Vmm P)
  unfolding vmm_allocate
  init_vmm fuel vmm_area s =
      let vmm_address = align_to_nearest_page (u64 (vmm_area + 8 * one_gigabyte)) in
      let (physical_address, rest) = ops.allocate_physical_page s.pages in
      let pages =
        ops.map_page vmm_address physical_address (bit_or 1 2)
          (ops.set_page_used (physical_address / page_size) rest) in
      vmm_allocate fuel (1024 * 1024 * 4) (record {
        regions = set_size vmm_address page_size s.regions;
        vm_root = vmm_address;
        pages = pages;
      })
