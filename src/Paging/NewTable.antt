-- ===== src/Paging/NewTable.antt =====
-- src/mem/paging.c: a new table for an entry that is not present, in `map_page`.
use potatos.Base.{
  ℕ, zero, suc, ◌+◌, ◌*◌, ◌^◌, ◌≤◌, ◌<◌, ◌≡◌, ◌⊎◌, refl, true, false, ◌==◌, if◌then◌else◌, some,
  arith,
}
use potatos.Bitmap.{Bitmap, is_page_free, allocate_physical_page}
use potatos.Bitmap.Pages.{IsBitmap, set_page_used_lem, set_page_used-IsBitmap}
use potatos.Bitmap.Allocate.{Allocation, exhausted, lowest, allocate_physical_page-Allocation}
use potatos.Paging.{Words, write_word, Mmu, Machine, clean_loop}

-- The bitmap can serve `n` allocations.
abbrev pub Supply : ℕ → Bitmap → Type 0
Supply zero b = Unit {0}
Supply (suc n) b =
    ((p : ℕ) × (p < b.total_pages) × (is_page_free b p ≡ true))
    × Supply n (allocate_physical_page b).1

pub Supply-pred : (n : ℕ) (b : Bitmap) → Supply (suc n) b → Supply n b
Supply-pred zero b h = tt
Supply-pred (suc n) b h = (h.0, Supply-pred n (allocate_physical_page b).1 h.1)

-- The page at address `table` is new: it was free, and is used from now on.
pub record IsNew (b b' : Bitmap) (table : ℕ) : Type 0 where
  pub page : ℕ
  pub address : table ≡ page * 4096
  pub low : table < 2 ^ 46
  pub was_free : is_page_free b page ≡ true
  pub now : (q : ℕ) → is_page_free b' q ≡ (if page == q then false else is_page_free b q)
  pub valid : IsBitmap b'

pub allocate-IsNew :
    (b : Bitmap)
    → IsBitmap b
    → ((p : ℕ) × (p < b.total_pages) × (is_page_free b p ≡ true))
    → IsNew b (allocate_physical_page b).1 (allocate_physical_page b).0
allocate-IsNew b v free = go (allocate_physical_page b) (allocate_physical_page-Allocation v)
  where
    go : (r : ℕ × Bitmap) → Allocation b 0 r → IsNew b r.1 r.0
    go r (exhausted none_free) =
        let used : is_page_free b free.0 ≡ false = none_free free.0 (omega arith) free.1 in
        absurd (cc (used, free.2))
    go r (lowest p a l f h) = record {
      page = p;
      address = refl;
      low = omega (arith, v.small);
      was_free = f;
      now = λ q. ground (arith, set_page_used_lem p q v);
      valid = set_page_used-IsBitmap p v;
    }

-- Everywhere outside the page at `table` the two memories agree.
abbrev pub SameOutside : ℕ → Words → Words → Type 0
SameOutside table w w' = (x : ℕ) → (x < table) ⊎ (table + 4096 ≤ x) → w' x ≡ w x

-- What `clean_new_table` leaves.
pub record IsCleaned (table : ℕ) (s s' : Machine) (from : ℕ) : Type 0 where
  pub same_bitmap : s'.bitmap ≡ s.bitmap
  pub outside : SameOutside table s.words s'.words
  pub cleared : (e : ℕ) → from ≤ e → e < 512 → s'.words (table + 8 * e) ≡ 0
  pub passed : (e : ℕ) → e < from → s'.words (table + 8 * e) ≡ s.words (table + 8 * e)

module _ (mmu : Mmu) (cr3 : ℕ) (view table : ℕ) (start : Words)
    (seen : (words : Words)
      → SameOutside table start words
      → (e : ℕ) → e < 512
      → mmu.translate words cr3 (view + 8 * e) ≡ some (table + 8 * e)) where
  pub clean_loop-IsCleaned :
      (left i : ℕ) (s : Machine)
      → i + left ≡ 512
      → SameOutside table start s.words
      → (s' : Machine) × (clean_loop mmu cr3 left i view s ≡ some s') × IsCleaned table s s' i
  unfolding clean_loop
  clean_loop-IsCleaned zero i s sum same = (
    s,
    refl,
    record {
      same_bitmap = refl;
      outside = λ x p. refl;
      cleared = λ e l u. absurd (omega arith);
      passed = λ e l. refl;
    },
  )
  clean_loop-IsCleaned (suc left) i s sum same =
      let t = record s { words = write_word s.words (table + 8 * i) 0 } in
      let rest =
        clean_loop-IsCleaned left (i + 1) t (omega arith) (λ x p. ground (arith, same x)) in
      (
        rest.0,
        rw (clean_loop, seen s.words same i (omega arith)) rest.1,
        record {
          same_bitmap = rest.2.same_bitmap;
          outside = λ x p. ground (arith, rest.2.outside x);
          cleared = λ e l u. ground (arith, rest.2.cleared e, rest.2.passed e);
          passed = λ e l. ground (arith, rest.2.passed e);
        },
      )
