-- ===== src/Bitmap/Allocate.antt =====
-- src/mem/bitmap.c: `allocate_physical_page` takes the lowest free page.
use potatos.Base.{
  ℕ, zero, suc, ◌+◌, ◌*◌, ◌^◌, ◌≤◌, ◌<◌, ◌≡◌, true, false, arith, ◌==◌, Bool-cases, inl, inr, u64,
  page_size,
}
use potatos.Bitmap.{Bitmap, is_page_free, set_page_used, allocate_loop, allocate_physical_page}
use potatos.Bitmap.Pages.{IsBitmap}

-- What a search of the pages from `i` on may do to `b`: nothing, if all are used, or take the lowest.
pub data Allocation (b : Bitmap) (i : ℕ) : ℕ × Bitmap → Type 0 where
  exhausted :
      ((q : ℕ) → i ≤ q → q < b.total_pages → is_page_free b q ≡ false) → Allocation b i (0, b)
  lowest :
      (p : ℕ)
      → i ≤ p
      → p < b.total_pages
      → is_page_free b p ≡ true
      → ((q : ℕ) → i ≤ q → q < p → is_page_free b q ≡ false)
      → Allocation b i (p * page_size, set_page_used b p)

later :
    {b : Bitmap} (i : ℕ) {r : ℕ × Bitmap}
    → is_page_free b i ≡ false
    → Allocation b (i + 1) r
    → Allocation b i r
later {b} i used (exhausted h) =
    exhausted
      (λ q p l. elim (Bool-cases (q == i)) [ inl e ↦ ground arith | inr n ↦ h q (ground arith) l ])
later {b} i used (lowest p a l f h) =
    lowest p (omega arith) l f
      (λ q x y. elim (Bool-cases (q == i)) [ inl e ↦ ground arith | inr n ↦ h q (ground arith) y ])

allocate_loop-Allocation :
    (left i : ℕ) {b : Bitmap}
    → b.total_pages ≤ 2 ^ 34
    → i + left ≡ b.total_pages
    → Allocation b i (allocate_loop left i b)
unfolding allocate_loop
allocate_loop-Allocation zero i v e = exhausted (λ q p l. absurd (omega arith))
allocate_loop-Allocation (suc left) i {b} v e = elim (Bool-cases (is_page_free b i)) [
  | inl f ↦
      let no_wrap : u64 (i * page_size) ≡ i * page_size = omega arith in
      rw (f, allocate_loop, no_wrap)
        (lowest i (omega arith) (omega arith) f (λ q x y. absurd (omega arith)))
  | inr u ↦
      rw (u, allocate_loop) (later i u (allocate_loop-Allocation left (i + 1) v (omega arith)))
]

-- `allocate_physical_page` returns the address of the lowest free page and marks that page used, or
-- returns 0 and changes nothing if every page is used.
pub allocate_physical_page-Allocation :
    {b : Bitmap} → IsBitmap b → Allocation b 0 (allocate_physical_page b)
unfolding allocate_physical_page
allocate_physical_page-Allocation {b} v =
    allocate_loop-Allocation b.total_pages 0 v.small (omega arith)
