-- ===== src/Pmm/Tests.antt =====
-- The physical memory manager at a concrete memory map.
use potatos.Base.{ℕ, ◌*◌, ◌/◌, ◌<◌, ◌≡◌, refl, true, false, arith, leb, ◌==◌, if◌then◌else◌}
use potatos.Bitmap.{Bitmap, is_page_free}
use potatos.Bitmap.Pages.{IsBitmap}
use potatos.Pmm.{
  TagMmap, TagBasicMeminfo, mmap_number_of_entries, parse_mmap, all_memory_bytes, init_pmm,
}
use potatos.Pmm.Map.{reserves, parse_mmap_lem, init_pmm_lem}

-- 639 KiB below 1 MiB and 63 MiB above it.
abbrev meminfo : TagBasicMeminfo
meminfo = record { mem_lower = 639; mem_upper = 64512 }

-- An available and a reserved region.
abbrev regions : TagMmap
regions = record {
  size = 64;
  entry_size = 24;
  entries = λ i.
      if i == 0
      then record { addr = 0; len = 654336; kind = 1 }
      else record { addr = 0x3000000; len = 0x10000; kind = 2 };
}

two_entries : mmap_number_of_entries regions ≡ 2
unfolding mmap_number_of_entries
two_entries = refl

-- Pages 0 and 3 are used.
abbrev small : Bitmap
small = record { bytes = λ a. if a == 0 then 9 else 0; total_pages = 16384 }

small-IsBitmap : IsBitmap small
small-IsBitmap = record { rows = λ a. ground arith; small = omega arith }

reserves_page : reserves 2 0 regions.entries (65151 * 1024) 0x3005 ≡ true
unfolding reserves
reserves_page = refl

parse_mmap_lem_example :
    IsBitmap (parse_mmap regions 67108864 small)
    × ((q : ℕ)
        → q < 16384
        → is_page_free (parse_mmap regions 67108864 small) q ≡ (
            if reserves (mmap_number_of_entries regions) 0 regions.entries 67108864 q
            then false
            else is_page_free small q))
parse_mmap_lem_example = parse_mmap_lem regions 67108864 small-IsBitmap

init_pmm_lem_example :
    let b = init_pmm 2097152 (λ a. 255) meminfo regions in
    let size = all_memory_bytes meminfo in
    IsBitmap b
    × ((q : ℕ)
        → q < size / 32768 * 8
        → is_page_free b q ≡ (
            if reserves (mmap_number_of_entries regions) 0 regions.entries size q
            then false
            else leb 3584 q))
init_pmm_lem_example =
    init_pmm_lem 2097152 (λ a. 255) meminfo regions (λ a. omega arith) (omega arith)
