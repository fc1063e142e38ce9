-- ===== src/Bitmap/Init.antt =====
-- src/mem/bitmap.c: `init_bitmap`, whatever the memory holds before.
use potatos.Base.{
  ℕ, zero, suc, ◌+◌, ◌*◌, ◌/◌, ◌%◌, ◌^◌, ◌≤◌, ◌<◌, ◌≡◌, true, ◌&&◌, arith, ltb, leb, if◌then◌else◌,
  page_size, Memory, IsBytes, write8, u64, zero-bit_clear, ◌∙◌,
}
use potatos.Bitmap.{Bitmap, bits_per_row, is_page_free, clear_rows, init_bitmap}
use potatos.Bitmap.Pages.{IsBitmap}
use potatos.Bitmap.Ranges.{
  set_page_range_used-IsBitmap, total_pages-set_page_range_used, set_page_range_used_lem,
}

clear_rows_lem :
    (left i a : ℕ) (m : Memory)
    → clear_rows left i m a ≡ (if leb i a && ltb a (i + left) then 0 else m a)
unfolding clear_rows
clear_rows_lem zero i a m = ground arith
clear_rows_lem (suc left) i a m = ground (arith, clear_rows_lem left (i + 1) a (write8 m i 0))

-- The bitmap before any page is marked.
abbrev cleared : Memory → ℕ → Bitmap
cleared m size = record {
  bytes = clear_rows (size / page_size / bits_per_row) 0 m;
  total_pages = u64 (size / page_size / bits_per_row * bits_per_row);
}

module _ (m : Memory) (size : ℕ) (bytes : IsBytes m) (small : size ≤ 2 ^ 42) where
  cleared-IsBitmap : IsBitmap (cleared m size)
  cleared-IsBitmap = record {
    rows = λ a. ground (arith, bytes a, clear_rows_lem (size / page_size / bits_per_row) 0 a m);
    small = omega arith;
  }

  cleared-free : (q : ℕ) → q < (cleared m size).total_pages → is_page_free (cleared m size) q ≡ true
  unfolding is_page_free
  cleared-free q h =
      ground (
        arith,
        clear_rows_lem (size / page_size / bits_per_row) 0 (q / 8) m,
        zero-bit_clear (q % 8),
      )

-- After `init_bitmap` the bitmap is well formed, `total_pages` is the number of whole rows of eight
-- pages that fit the memory's size (of at most 2 ^ 42 bytes), and a page below `total_pages` is free
-- exactly if its number is at least that of the page in which the first 12 MiB behind the kernel end.
pub init_bitmap_lem :
    (kernel_physical_end : ℕ) (m : Memory) (size : ℕ)
    → IsBytes m
    → size ≤ 2 ^ 42
    → kernel_physical_end < 2 ^ 63
    → IsBitmap (init_bitmap kernel_physical_end m size)
      × ((init_bitmap kernel_physical_end m size).total_pages ≡ size / 32768 * 8)
      × ((q : ℕ)
          → q < size / 32768 * 8
          → is_page_free (init_bitmap kernel_physical_end m size) q
            ≡ leb ((kernel_physical_end + 12582912) / page_size) q)
unfolding init_bitmap
init_bitmap_lem kernel_physical_end m size bytes small low =
    let last = u64 (kernel_physical_end + 12582912) in
    let start = cleared m size in
    let e : start.total_pages ≡ size / 32768 * 8 = omega arith in
    let l : last ≡ kernel_physical_end + 12582912 = omega arith in
    let v = cleared-IsBitmap m size bytes small in
    (
      set_page_range_used-IsBitmap 0 last v,
      total_pages-set_page_range_used start 0 last ∙ e,
      λ q h. ground (arith, set_page_range_used_lem 0 last q v, cleared-free m size bytes small q),
    )
