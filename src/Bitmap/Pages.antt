-- ===== src/Bitmap/Pages.antt =====
-- One page of the bitmap (src/mem/bitmap.c): what `set_page_used` and `set_page_free` do to every
-- page, and the invariant that they keep.
use potatos.Base.{
  ℕ, ◌/◌, ◌%◌, ◌^◌, ◌≤◌, ◌<◌, ◌≡◌, true, false, ◌&&◌, arith, ltb, leb, ◌==◌, if◌then◌else◌,
  Bool-cases, inl, inr, int_index, IsBytes, write8-IsBytes, bit_clear-set_bit, bit_clear-clear_bit,
}
use potatos.Bitmap.{Bitmap, is_page_free, set_page_free, set_page_used}

-- The rows are bytes, and every row index of a page in range fits an `int`.
pub record IsBitmap (b : Bitmap) : Type 0 where
  pub rows : IsBytes b.bytes
  pub small : b.total_pages ≤ 2 ^ 34

pub set_page_used-IsBitmap : {b : Bitmap} (p : ℕ) → IsBitmap b → IsBitmap (set_page_used b p)
unfolding set_page_used
set_page_used-IsBitmap {b} p v = elim (Bool-cases (leb b.total_pages p)) [
  | inl e ↦ rw e v
  | inr e ↦ rw e (record { rows = write8-IsBytes _ v.rows (omega arith); small = v.small })
]

pub set_page_free-IsBitmap : {b : Bitmap} (p : ℕ) → IsBitmap b → IsBitmap (set_page_free b p)
unfolding set_page_free
set_page_free-IsBitmap {b} p v = elim (Bool-cases (leb b.total_pages p)) [
  | inl e ↦ rw e v
  | inr e ↦ rw e (record { rows = write8-IsBytes _ v.rows (omega arith); small = v.small })
]

pub total_pages-set_page_used :
    (b : Bitmap) (p : ℕ) → (set_page_used b p).total_pages ≡ b.total_pages
unfolding set_page_used
total_pages-set_page_used b p = ground arith

pub total_pages-set_page_free :
    (b : Bitmap) (p : ℕ) → (set_page_free b p).total_pages ≡ b.total_pages
unfolding set_page_free
total_pages-set_page_free b p = ground arith

int_index_small : (n : ℕ) → n < 2 ^ 31 → int_index n ≡ n
int_index_small n h = ground arith

-- Marking a page used makes it used, if it lies below `total_pages`, and changes no other page.
pub set_page_used_lem :
    {b : Bitmap} (p q : ℕ)
    → IsBitmap b
    → is_page_free (set_page_used b p) q
      ≡ (if ltb p b.total_pages && p == q then false else is_page_free b q)
unfolding set_page_used is_page_free
set_page_used_lem {b} p q v = ground (
  arith,
  v.rows (p / 8),
  v.small,
  int_index_small (p / 8),
  bit_clear-set_bit {x = b.bytes (p / 8)} {k = p % 8} {j = q % 8},
)

-- Marking a page free makes it free, if it lies below `total_pages`, and changes no other page.
pub set_page_free_lem :
    {b : Bitmap} (p q : ℕ)
    → IsBitmap b
    → is_page_free (set_page_free b p) q
      ≡ (if ltb p b.total_pages && p == q then true else is_page_free b q)
unfolding set_page_free is_page_free
set_page_free_lem {b} p q v = ground (
  arith,
  v.rows (p / 8),
  v.small,
  int_index_small (p / 8),
  bit_clear-clear_bit {x = b.bytes (p / 8)} {k = p % 8} {j = q % 8},
)
