-- ===== src/Bitmap/Ranges.antt =====
-- src/mem/bitmap.c: `set_page_range_used` marks exactly the pages from the first one that the range
-- touches up to, and without, the page in which the range ends.
use potatos.Base.{
  ℕ, zero, suc, ◌+◌, ◌-◌, ◌/◌, ◌<◌, ◌≡◌, refl, Bool, false, ◌&&◌, arith, ltb, leb, if◌then◌else◌,
  page_size,
}
use potatos.Bitmap.{Bitmap, is_page_free, set_page_used, range_loop, set_page_range_used}
use potatos.Bitmap.Pages.{
  IsBitmap, set_page_used-IsBitmap, set_page_used_lem, total_pages-set_page_used,
}

-- Is `q` one of the pages from `first` up to, and without, `last`?
abbrev pub in_range : ℕ → ℕ → ℕ → Bool
in_range first last q = leb first q && ltb q last

pub total_pages-range_loop :
    (left i : ℕ) (b : Bitmap) → (range_loop left i b).total_pages ≡ b.total_pages
unfolding range_loop
total_pages-range_loop zero i b = refl
total_pages-range_loop (suc left) i b =
    ground (
      arith,
      total_pages-range_loop left (i + 1) (set_page_used b i),
      total_pages-set_page_used b i,
    )

range_loop-IsBitmap : (left i : ℕ) {b : Bitmap} → IsBitmap b → IsBitmap (range_loop left i b)
unfolding range_loop
range_loop-IsBitmap zero i v = v
range_loop-IsBitmap (suc left) i v = range_loop-IsBitmap left (i + 1) (set_page_used-IsBitmap i v)

range_loop_lem :
    (left i q : ℕ) {b : Bitmap}
    → IsBitmap b
    → q < b.total_pages
    → is_page_free (range_loop left i b) q
      ≡ (if in_range i (i + left) q then false else is_page_free b q)
unfolding range_loop
range_loop_lem zero i q v h = ground arith
range_loop_lem (suc left) i q {b} v h = ground (
  arith,
  range_loop_lem left (i + 1) q (set_page_used-IsBitmap i v),
  set_page_used_lem i q v,
  total_pages-set_page_used b i,
)

pub set_page_range_used-IsBitmap :
    (s e : ℕ) {b : Bitmap} → IsBitmap b → IsBitmap (set_page_range_used b s e)
unfolding set_page_range_used
set_page_range_used-IsBitmap s e v =
    range_loop-IsBitmap (e / page_size - s / page_size) (s / page_size) v

pub total_pages-set_page_range_used :
    (b : Bitmap) (s e : ℕ) → (set_page_range_used b s e).total_pages ≡ b.total_pages
unfolding set_page_range_used
total_pages-set_page_range_used b s e =
    total_pages-range_loop (e / page_size - s / page_size) (s / page_size) b

-- A page below `total_pages` is free after `set_page_range_used` exactly if it was free and its
-- number is not among the pages from that of the range's start up to, and without, that of its end.
pub set_page_range_used_lem :
    {b : Bitmap} (s e q : ℕ)
    → IsBitmap b
    → q < b.total_pages
    → is_page_free (set_page_range_used b s e) q
      ≡ (if in_range (s / page_size) (e / page_size) q then false else is_page_free b q)
unfolding set_page_range_used
set_page_range_used_lem {b} s e q v h =
    ground (arith, range_loop_lem (e / 4096 - s / 4096) (s / 4096) q v h)
