-- ===== src/Paging/Grow.antt =====
-- A new table for an entry that is not present, in `map_page` of src/mem/paging.c.
use potatos.Base.{
  ℕ, ◌+◌, ◌*◌, ◌%◌, ◌^◌, ◌<◌, ◌≡◌, refl, ◌∙◌, true, false, some, arith, bit_or, bit_or-fields,
}
use potatos.Bitmap.{is_page_free, allocate_physical_page}
use potatos.Bitmap.Pages.{IsBitmap}
use potatos.Paging.{
  write_word, Mmu, Machine, is_present, frame, Present, Small, clean_new_table, add_table,
  ensure_table,
}
use potatos.Paging.Mapped.{is_present_lem}
use potatos.Paging.NewTable.{IsNew, allocate-IsNew, SameOutside, clean_loop-IsCleaned}

-- The entry that leads to the table at `table`, writable and present.
pub entry_of : (page : ℕ) → bit_or (bit_or (page * 4096) 2) 1 ≡ page * 4096 + 3
entry_of page = ground (arith, bit_or-fields 12 page 2, bit_or-fields 1 (page * 2048 + 1) 1)

-- What the processor reads in it.
pub entry_fields :
    (page : ℕ)
    → page * 4096 < 2 ^ 46
    → (frame (page * 4096 + 3) ≡ page * 4096) × Present (page * 4096 + 3) × Small (page * 4096 + 3)
entry_fields page h = omega arith

-- The entry at `a` leads to a new table at `table`, and nothing outside the table has changed.
pub record IsAdded (s s' : Machine) (a table : ℕ) : Type 0 where
  pub new : IsNew s.bitmap s'.bitmap table
  pub outside : SameOutside table (write_word s.words a (table + 3)) s'.words

-- The new table is empty.
pub record IsGrown (s s' : Machine) (a table : ℕ) : Type 0 where
  pub added : IsAdded s s' a table
  pub taken : s'.bitmap ≡ (allocate_physical_page s.bitmap).1
  pub cleared : (e : ℕ) → e < 512 → s'.words (table + 8 * e) ≡ 0

module _ (mmu : Mmu) (cr3 slot view a : ℕ) (s : Machine)
    (see : mmu.translate s.words cr3 slot ≡ some a) (absent : s.words a % 2 ≡ 0)
    (v : IsBitmap s.bitmap)
    (free : (p : ℕ) × (p < s.bitmap.total_pages) × (is_page_free s.bitmap p ≡ true))
    (seen : (table : ℕ) (s' : Machine)
      → IsAdded s s' a table
      → (e : ℕ) → e < 512
      → mmu.translate s'.words cr3 (view + 8 * e) ≡ some (table + 8 * e)) where
  ensure_table-add : ensure_table mmu cr3 slot view s ≡ add_table mmu cr3 slot view s
  unfolding ensure_table
  ensure_table-add =
      let t : is_present (s.words a) ≡ false = ground (arith, is_present_lem (s.words a)) in
      rw (ensure_table, see, t) refl

  -- The machine with the new entry, before the table is cleaned.
  abbrev with_entry : Machine
  with_entry = record {
    words = write_word s.words a ((allocate_physical_page s.bitmap).0 + 3);
    bitmap = (allocate_physical_page s.bitmap).1;
  }

  add_table_step :
      {s' : Machine}
      → bit_or (bit_or (allocate_physical_page s.bitmap).0 2) 1
        ≡ (allocate_physical_page s.bitmap).0 + 3
      → clean_new_table mmu cr3 view with_entry ≡ some s'
      → add_table mmu cr3 slot view s ≡ some s'
  unfolding add_table
  add_table_step entry cleaned = rw (add_table, see, entry) cleaned

  pub ensure_table-IsGrown :
      (s' : Machine) × (ensure_table mmu cr3 slot view s ≡ some s')
      × IsGrown s s' a (allocate_physical_page s.bitmap).0
  unfolding clean_new_table
  ensure_table-IsGrown =
      let table = (allocate_physical_page s.bitmap).0 in
      let new = allocate-IsNew s.bitmap v free in
      let entry : bit_or (bit_or table 2) 1 ≡ table + 3 = rw new.address (entry_of new.page) in
      let (s', run, clean) =
        clean_loop-IsCleaned mmu cr3 view table with_entry.words
          (λ words same e he.
            seen table (record { words = words; bitmap = (allocate_physical_page s.bitmap).1 })
              (record { new = new; outside = same }) e he)
          512 0 with_entry (omega arith) (λ x p. refl) in
      (
        s',
        ensure_table-add ∙ add_table_step entry run,
        record {
          taken = clean.same_bitmap;
          added = record { new = rw clean.same_bitmap new; outside = clean.outside };
          cleared = λ e he. clean.cleared e (omega arith) he;
        },
      )
