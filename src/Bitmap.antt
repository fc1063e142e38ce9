-- ===== src/Bitmap.antt =====
-- src/mem/bitmap.c: the bitmap of physical pages. `bytes` is the memory from the pointer `bitmap`
-- (the symbol `_kernel_end`) on; a set bit is a used page. What the functions print is left out.
pub mod Pages
pub mod Ranges
pub mod Allocate
pub mod Sequence
pub mod Init
mod Tests
use potatos.Base.{
  ℕ, zero, suc, ◌+◌, ◌-◌, ◌*◌, ◌/◌, ◌%◌, Bool, true, false, leb, if◌then◌else◌, u64, int_index,
  page_size, Memory, write8, bit_clear, set_bit, clear_bit,
}

pub record Bitmap : Type 0 where
  pub bytes : Memory
  pub total_pages : ℕ

abbrev pub bits_per_row : ℕ
bits_per_row = 8

unfoldable pub is_page_free : Bitmap → ℕ → Bool
is_page_free b page_index =
    bit_clear (b.bytes (page_index / bits_per_row)) (page_index % bits_per_row)

pub set_page_free : Bitmap → ℕ → Bitmap
set_page_free b page_index =
    let y = int_index (page_index / bits_per_row) in
    if leb b.total_pages page_index
    then b
    else record b { bytes = write8 b.bytes y (clear_bit (b.bytes y) (page_index % bits_per_row)) }

unfoldable pub set_page_used : Bitmap → ℕ → Bitmap
set_page_used b page_index =
    let y = int_index (page_index / bits_per_row) in
    if leb b.total_pages page_index
    then b
    else record b { bytes = write8 b.bytes y (set_bit (b.bytes y) (page_index % bits_per_row)) }

-- The loop of `set_page_range_used` at page `i`, with `left` rounds to go.
pub range_loop : ℕ → ℕ → Bitmap → Bitmap
range_loop zero i b = b
range_loop (suc left) i b = range_loop left (i + 1) (set_page_used b i)

pub set_page_range_used : Bitmap → ℕ → ℕ → Bitmap
unfolding range_loop
set_page_range_used b memory_range_start memory_range_end =
    let page_start = memory_range_start / page_size in
    let page_end = memory_range_end / page_size in range_loop (page_end - page_start) page_start b

-- The loop of `allocate_physical_page` at page `i`, with `left` rounds to go.
unfoldable pub allocate_loop : ℕ → ℕ → Bitmap → ℕ × Bitmap
allocate_loop zero i b = (0, b)
allocate_loop (suc left) i b = elim (is_page_free b i) [
  | true ↦ (u64 (i * page_size), set_page_used b i)
  | false ↦ allocate_loop left (i + 1) b
]

unfoldable pub allocate_physical_page : Bitmap → ℕ × Bitmap
unfolding allocate_loop
allocate_physical_page b = allocate_loop b.total_pages 0 b

-- The loop of `init_bitmap` at row `i`, with `left` rounds to go.
pub clear_rows : ℕ → ℕ → Memory → Memory
clear_rows zero i m = m
clear_rows (suc left) i m = clear_rows left (i + 1) (write8 m i 0)

-- `kernel_physical_end` is the linker's symbol, `memory` what lies at `_kernel_end` before.
pub init_bitmap : (kernel_physical_end : ℕ) → Memory → (size : ℕ) → Bitmap
unfolding clear_rows
init_bitmap kernel_physical_end memory size =
    let rows = size / page_size / bits_per_row in
    set_page_range_used
      (record { bytes = clear_rows rows 0 memory; total_pages = u64 (rows * bits_per_row) }) 0
      (u64 (kernel_physical_end + 1024 * 1024 * 12))
