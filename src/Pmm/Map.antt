-- ===== src/Pmm/Map.antt =====
-- src/mem/mmap.c and src/mem/pmm.c: which pages are free once the memory map is read.
use potatos.Base.{
  ℕ, zero, suc, ◌+◌, ◌*◌, ◌/◌, ◌^◌, ◌≤◌, ◌<◌, ◌≡◌, refl, ◌∙◌, Bool, false, ◌||◌, arith, ltb, leb,
  if◌then◌else◌, Bool-cases, inl, inr, page_size, Memory, IsBytes,
}
use potatos.Bitmap.{Bitmap, is_page_free}
use potatos.Bitmap.Pages.{IsBitmap}
use potatos.Bitmap.Ranges.{
  in_range, set_page_range_used-IsBitmap, total_pages-set_page_range_used, set_page_range_used_lem,
}
use potatos.Bitmap.Init.{init_bitmap_lem}
use potatos.Pmm.{
  MemoryMapEntry, TagMmap, TagBasicMeminfo, is_reserved, entry_end, mmap_loop,
  mmap_number_of_entries, parse_mmap, all_memory_bytes, init_pmm,
}

-- Does one of the reserved entries among `left` from entry `i` on, up to the first that ends behind
-- the memory, mark page `q`?
unfoldable pub reserves : ℕ → ℕ → (ℕ → MemoryMapEntry) → ℕ → ℕ → Bool
reserves zero i entries size_of_memory q = false
reserves (suc left) i entries size_of_memory q =
    let e = entries i in
    let rest = reserves left (i + 1) entries size_of_memory q in
    if is_reserved e
    then (if ltb size_of_memory (entry_end e)
        then false
        else in_range (e.addr / page_size) (entry_end e / page_size) q || rest)
    else rest

-- What `mmap_loop` makes of `b`.
record Parsed (b b' : Bitmap) (marks : ℕ → Bool) : Type 0 where
  pub valid : IsBitmap b'
  pub same_total : b'.total_pages ≡ b.total_pages
  pub pages :
      (q : ℕ)
      → q < b.total_pages
      → is_page_free b' q ≡ (if marks q then false else is_page_free b q)

module _ (entries : ℕ → MemoryMapEntry) (size_of_memory : ℕ) where
  mmap_loop-Parsed :
      (left i : ℕ) {b : Bitmap}
      → IsBitmap b
      → Parsed b
          (mmap_loop left i entries size_of_memory b)
          (reserves left i entries size_of_memory)
  unfolding mmap_loop reserves
  mmap_loop-Parsed zero i v = record { valid = v; same_total = refl; pages = λ q h. refl }
  mmap_loop-Parsed (suc left) i {b} v = elim (Bool-cases (is_reserved (entries i))) [
    | inr free ↦ rw (free, mmap_loop, reserves) (mmap_loop-Parsed left (i + 1) v)
    | inl res ↦ elim (Bool-cases (ltb size_of_memory (entry_end (entries i)))) [
      | inl out ↦
          rw (res, out, mmap_loop, reserves)
            (record { valid = v; same_total = refl; pages = λ q h. refl })
      | inr within ↦
          let first = (entries i).addr in
          let last = entry_end (entries i) in
          let total = total_pages-set_page_range_used b first last in
          let rest = mmap_loop-Parsed left (i + 1) (set_page_range_used-IsBitmap first last v) in
          rw (res, within, mmap_loop, reserves)
            (record {
              valid = rest.valid;
              same_total = rest.same_total ∙ total;
              pages = λ q h.
                  ground (arith, rest.pages q, total, set_page_range_used_lem first last q v);
            })
    ]
  ]

-- After `parse_mmap` a page below `total_pages` is free exactly if it was free before and no reserved
-- entry in front of the first one that ends behind the memory marks it.
pub parse_mmap_lem :
    (t : TagMmap) (size_of_memory : ℕ) {b : Bitmap}
    → IsBitmap b
    → IsBitmap (parse_mmap t size_of_memory b)
      × ((q : ℕ)
          → q < b.total_pages
          → is_page_free (parse_mmap t size_of_memory b) q ≡ (
              if reserves (mmap_number_of_entries t) 0 t.entries size_of_memory q
              then false
              else is_page_free b q))
unfolding parse_mmap
parse_mmap_lem t size_of_memory v =
    let p = mmap_loop-Parsed t.entries size_of_memory (mmap_number_of_entries t) 0 v in
    (p.valid, p.pages)

-- Once `init_pmm` is done, whatever the memory held before, the bitmap is well formed and a page below
-- its end is free exactly if its number is at least that of the page in which the first 12 MiB behind
-- the kernel end, and no reserved entry in front of the first one that ends behind the memory marks it.
pub init_pmm_lem :
    (kernel_physical_end : ℕ) (memory : Memory) (mem : TagBasicMeminfo) (mmap : TagMmap)
    → IsBytes memory
    → kernel_physical_end < 2 ^ 63
    → let b = init_pmm kernel_physical_end memory mem mmap in
      let size = all_memory_bytes mem in
      IsBitmap b
      × ((q : ℕ)
          → q < size / 32768 * 8
          → is_page_free b q ≡ (
              if reserves (mmap_number_of_entries mmap) 0 mmap.entries size q
              then false
              else leb ((kernel_physical_end + 12582912) / page_size) q))
unfolding init_pmm
init_pmm_lem kernel_physical_end memory mem mmap bytes low =
    let size = all_memory_bytes mem in
    let small : size ≤ 2 ^ 42 = unfold all_memory_bytes in omega arith in
    let start = init_bitmap_lem kernel_physical_end memory size bytes small low in
    let parsed = parse_mmap_lem mmap size start.0 in
    (parsed.0, λ q h. ground (arith, start.1, start.2 q, parsed.1 q))
