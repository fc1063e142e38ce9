-- ===== src/Bitmap/Tests.antt =====
-- The bitmap at work, and its theorems at concrete bitmaps.
use potatos.Base.{ℕ, ◌<◌, ◌≡◌, refl, false, arith, leb, ◌==◌, if◌then◌else◌, [], ◌∷◌}
use potatos.Bitmap.{
  Bitmap, is_page_free, set_page_free, set_page_range_used, allocate_physical_page, init_bitmap,
}
use potatos.Bitmap.Pages.{IsBitmap}
use potatos.Bitmap.Ranges.{set_page_range_used_lem}
use potatos.Bitmap.Allocate.{Allocation, allocate_physical_page-Allocation}
use potatos.Bitmap.Sequence.{Owners, IsOwned, Reach, give, here, next, Reach-IsOwned}
use potatos.Bitmap.Init.{init_bitmap_lem}

-- Sixteen pages, of which 0 and 2 are used.
abbrev tiny : Bitmap
tiny = record { bytes = λ a. if a == 0 then 5 else 0; total_pages = 16 }

tiny-IsBitmap : IsBitmap tiny
tiny-IsBitmap = record { rows = λ a. ground arith; small = omega arith }

allocate-tiny : (allocate_physical_page tiny).0 ≡ 4096
unfolding allocate_physical_page is_page_free
allocate-tiny = refl

allocate_full : (allocate_physical_page (record tiny { total_pages = 1 })).0 ≡ 0
unfolding allocate_physical_page is_page_free
allocate_full = refl

set_page_range_used_lem_example : is_page_free (set_page_range_used tiny 4097 16384) 3 ≡ false
set_page_range_used_lem_example = set_page_range_used_lem 4097 16384 3 tiny-IsBitmap (omega arith)

allocate_physical_page-Allocation_example : Allocation tiny 0 (allocate_physical_page tiny)
allocate_physical_page-Allocation_example = allocate_physical_page-Allocation tiny-IsBitmap

-- Page 2 is held by a client.
abbrev owners : Owners
owners = record { map = tiny; live = 2 ∷ [] }

owners-IsOwned : IsOwned owners
unfolding is_page_free
owners-IsOwned = record {
  bitmap = tiny-IsBitmap;
  reserved = refl;
  unheld = refl;
  once = λ p. ground arith;
  exists = λ p h. ground arith;
  used = λ p h. let e : p ≡ 2 = ground arith in rw e refl;
}

abbrev released : Owners
released = record { map = set_page_free tiny 2; live = [] }

owners-Reach : Reach owners released
owners-Reach = next here (give owners 2 (omega arith))

Reach-IsOwned_example : IsOwned released
Reach-IsOwned_example = Reach-IsOwned owners-IsOwned owners-Reach

-- 64 MiB of memory that holds 0xff everywhere, and a kernel that ends at 2 MiB.
init_bitmap_lem_example :
    IsBitmap (init_bitmap 2097152 (λ a. 255) 67108864)
    × ((init_bitmap 2097152 (λ a. 255) 67108864).total_pages ≡ 16384)
    × ((q : ℕ) → q < 16384 → is_page_free (init_bitmap 2097152 (λ a. 255) 67108864) q ≡ leb 3584 q)
init_bitmap_lem_example =
    init_bitmap_lem 2097152 (λ a. 255) 67108864 (λ a. omega arith) (omega arith) (omega arith)
