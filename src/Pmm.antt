-- ===== src/Pmm.antt =====
-- src/mem/pmm.c and src/mem/mmap.c: the physical memory manager is set up from the memory that the
-- boot loader reports. The tags are read as records (include/multiboot.h); what is printed, and the
-- counters that are only printed, are left out.
pub mod Map
mod Tests
use potatos.Base.{
  ℕ, zero, suc, ◌+◌, ◌-◌, ◌*◌, ◌/◌, ◌^◌, Bool, true, false, ltb, ◌==◌, if◌then◌else◌, u32, u64,
  Memory,
}
use potatos.Bitmap.{Bitmap, set_page_range_used, init_bitmap}

-- `struct multiboot_mmap_entry`, whose `type` is here `kind`.
pub record MemoryMapEntry : Type 0 where
  pub addr : ℕ
  pub len : ℕ
  pub kind : ℕ

-- `struct multiboot_tag_mmap`; `entries` is the flexible array behind the header.
pub record TagMmap : Type 0 where
  pub size : ℕ
  pub entry_size : ℕ
  pub entries : ℕ → MemoryMapEntry

-- `struct multiboot_tag_basic_meminfo`
pub record TagBasicMeminfo : Type 0 where
  pub mem_lower : ℕ
  pub mem_upper : ℕ

abbrev pub multiboot_memory_reserved : ℕ
multiboot_memory_reserved = 2

abbrev pub sizeof_tag_mmap : ℕ
sizeof_tag_mmap = 16

abbrev pub is_reserved : MemoryMapEntry → Bool
is_reserved e = e.kind == multiboot_memory_reserved

abbrev pub entry_end : MemoryMapEntry → ℕ
entry_end e = u64 (e.addr + e.len)

-- The loop of `parse_mmap` at entry `i`, with `left` rounds to go; a reserved entry that ends behind
-- the memory leaves the loop.
pub mmap_loop : ℕ → ℕ → (ℕ → MemoryMapEntry) → (size_of_memory : ℕ) → Bitmap → Bitmap
mmap_loop zero i entries size_of_memory b = b
mmap_loop (suc left) i entries size_of_memory b = elim (is_reserved (entries i)) [
  | false ↦ mmap_loop left (i + 1) entries size_of_memory b
  | true ↦ elim (ltb size_of_memory (entry_end (entries i))) [
    | true ↦ b
    | false ↦
        mmap_loop left (i + 1) entries size_of_memory
          (set_page_range_used b (entries i).addr (entry_end (entries i)))
  ]
]

-- The unsigned difference of `size` and the header's size is of 64 bits, and the quotient is cut to
-- `uint32_t`.
pub mmap_number_of_entries : TagMmap → ℕ
mmap_number_of_entries t = u32 (u64 (t.size + 2 ^ 64 - sizeof_tag_mmap) / t.entry_size)

pub parse_mmap : TagMmap → (size_of_memory : ℕ) → Bitmap → Bitmap
unfolding mmap_number_of_entries mmap_loop
parse_mmap t size_of_memory b = mmap_loop (mmap_number_of_entries t) 0 t.entries size_of_memory b

-- The memory's size in bytes: the sum of the two 32-bit counts of kilobytes, times 1024.
pub all_memory_bytes : TagBasicMeminfo → ℕ
all_memory_bytes t = u32 (t.mem_lower + t.mem_upper) * 1024

-- `kernel_physical_end` is the linker's symbol, `memory` what lies at `_kernel_end` before.
pub init_pmm : (kernel_physical_end : ℕ) → Memory → TagBasicMeminfo → TagMmap → Bitmap
unfolding parse_mmap all_memory_bytes
init_pmm kernel_physical_end memory mem mmap =
    parse_mmap mmap (all_memory_bytes mem)
      (init_bitmap kernel_physical_end memory (all_memory_bytes mem))
