-- ===== src/Paging/Mapped.antt =====
-- `is_virtual_memory_mapped` of src/mem/paging.c agrees with the processor.
use potatos.Base.{
  ℕ, ◌+◌, ◌*◌, ◌%◌, ◌^◌, ◌<◌, ◌≡◌, ◌⊎◌, refl, Bool, true, false, ◌==◌, if◌then◌else◌, Option, none,
  some, inl, inr, arith, bit_and-ones,
}
use potatos.Paging.{
  Words, Mmu, Machine, is_present, frame, Canonical, Present, Small, level4, level3, level2, level1,
  require, is_virtual_memory_mapped, ensure_table, set_page, map_page,
}
use potatos.Paging.Windows.{IsSelfMapped, slot4, slot3, slot2, slot1}

-- The code's test of the lowest bit.
pub is_present_lem : (e : ℕ) → is_present e ≡ (if e % 2 == 1 then true else false)
is_present_lem e = ground (arith, bit_and-ones 1 e)

-- No entry on the way of an address stands for a large page.
pub record HasSmallPages (words : Words) (cr3 v : ℕ) : Type 0 where
  pub small4 : Present (level4 words cr3 v) → Small (level4 words cr3 v)
  pub small3 :
      Present (level4 words cr3 v) → Present (level3 words cr3 v) → Small (level3 words cr3 v)
  pub small2 :
      Present (level4 words cr3 v)
      → Present (level3 words cr3 v)
      → Present (level2 words cr3 v)
      → Small (level2 words cr3 v)

pub parity : (e : ℕ) → (e % 2 ≡ 1) ⊎ (e % 2 ≡ 0)
parity e = ground arith

pub translated : (e : ℕ) {a : ℕ} {t : Option ℕ} → t ≡ some a → (e % 2 ≡ 0 → t ≡ none) → Present e
translated e h fault = elim (parity e) [ inl p ↦ p | inr n ↦ absurd (ground (arith, h, fault n)) ]

module _ (mmu : Mmu) (cr3 : ℕ) (s : Machine) where
  require-Present :
      (table index a : ℕ) (next : Option Bool)
      → mmu.translate s.words cr3 (table + 8 * index) ≡ some a
      → Present (s.words a)
      → require mmu cr3 table index s next ≡ next
  unfolding require
  require-Present table index a next h p =
      let t : is_present (s.words a) ≡ true = ground (arith, is_present_lem (s.words a)) in
      rw (require, h, t)

  require-absent :
      (table index a : ℕ) (next : Option Bool)
      → mmu.translate s.words cr3 (table + 8 * index) ≡ some a
      → s.words a % 2 ≡ 0
      → require mmu cr3 table index s next ≡ some false
  unfolding require
  require-absent table index a next h p =
      let t : is_present (s.words a) ≡ false = ground (arith, is_present_lem (s.words a)) in
      rw (require, h, t)

  -- Each `if` of `map_page` on an entry that is present.
  pub ensure_table-Present :
      (slot table a : ℕ)
      → mmu.translate s.words cr3 slot ≡ some a
      → Present (s.words a)
      → ensure_table mmu cr3 slot table s ≡ some s
  unfolding ensure_table
  ensure_table-Present slot table a h p =
      let t : is_present (s.words a) ≡ true = ground (arith, is_present_lem (s.words a)) in
      rw (ensure_table, h, t) refl

  pub set_page-Present :
      (slot physical_address flags a : ℕ)
      → mmu.translate s.words cr3 slot ≡ some a
      → Present (s.words a)
      → set_page mmu cr3 slot physical_address flags s ≡ some s
  unfolding set_page
  set_page-Present slot physical_address flags a h p =
      let t : is_present (s.words a) ≡ true = ground (arith, is_present_lem (s.words a)) in
      rw (set_page, h, t) refl

module _ (mmu : Mmu) (cr3 : ℕ) (s : Machine) (v : ℕ) (m : IsSelfMapped s.words cr3)
    (canonical : Canonical v) (small : HasSmallPages s.words cr3 v) where
  -- What `is_virtual_memory_mapped` says of an address for which the processor finds `t`.
  abbrev pub Answers : Option Bool → Option ℕ → Type 0
  Answers r t =
      ((r ≡ some true) × (t ≡ some (frame (level1 s.words cr3 v) + v % 4096)))
      ⊎ ((r ≡ some false) × (t ≡ none))

  -- One of the four tests.
  answer_step :
      (table index a : ℕ) (next : Option Bool) (t : Option ℕ)
      → mmu.translate s.words cr3 (table + 8 * index) ≡ some a
      → (Present (s.words a) → Answers next t)
      → (s.words a % 2 ≡ 0 → t ≡ none)
      → Answers (require mmu cr3 table index s next) t
  answer_step table index a next t see present absent = elim (parity (s.words a)) [
    | inl p ↦ rw (require-Present mmu cr3 s table index a next see p) (present p)
    | inr n ↦ inr (require-absent mmu cr3 s table index a next see n, absent n)
  ]

  -- `is_virtual_memory_mapped` does not fault, and says yes exactly if the processor translates the
  -- address, if the top table maps itself, the address is canonical and not of a large page.
  pub is_virtual_memory_mapped_lem :
      Answers (is_virtual_memory_mapped mmu cr3 v s) (mmu.translate s.words cr3 v)
  unfolding is_virtual_memory_mapped
  is_virtual_memory_mapped_lem =
      let low : v < 2 ^ 64 = omega arith in
      answer_step _ _ _ _ _ (slot4 mmu s.words cr3 v m low)
        (λ p4.
          answer_step _ _ _ _ _ (slot3 mmu s.words cr3 v m low p4)
            (λ p3.
              answer_step _ _ _ _ _ (slot2 mmu s.words cr3 v m low p4 (small.small4 p4) p3)
                (λ p2.
                  answer_step _ _ _ _ _
                    (slot1 mmu s.words cr3 v m low p4 (small.small4 p4) p3 (small.small3 p4 p3) p2)
                    (λ p1. inl (
                      refl,
                      mmu.walk s.words cr3 v canonical p4 p3 (small.small3 p4 p3) p2
                          (small.small2 p4 p3 p2) p1,
                    ))
                    (mmu.fault1 s.words cr3 v canonical p4 p3 (small.small3 p4 p3) p2
                      (small.small2 p4 p3 p2)))
                (mmu.fault2 s.words cr3 v canonical p4 p3 (small.small3 p4 p3)))
            (mmu.fault3 s.words cr3 v canonical p4))
        (mmu.fault4 s.words cr3 v canonical)

  -- `map_page` of an address that is mapped already does not fault and changes nothing, whatever
  -- physical address and flags it is given, if the top table maps itself, the address is canonical
  -- and not of a large page.
  pub map_page-mapped :
      (a physical_address flags : ℕ)
      → mmu.translate s.words cr3 v ≡ some a
      → map_page mmu cr3 v physical_address flags s ≡ some s
  unfolding map_page
  map_page-mapped a physical_address flags t =
      let low : v < 2 ^ 64 = omega arith in
      let p4 : Present (level4 s.words cr3 v) =
        translated _ t (mmu.fault4 s.words cr3 v canonical) in
      let p3 : Present (level3 s.words cr3 v) =
        translated _ t (mmu.fault3 s.words cr3 v canonical p4) in
      let s3 = small.small3 p4 p3 in
      let p2 : Present (level2 s.words cr3 v) =
        translated _ t (mmu.fault2 s.words cr3 v canonical p4 p3 s3) in
      let p1 : Present (level1 s.words cr3 v) =
        translated _ t (mmu.fault1 s.words cr3 v canonical p4 p3 s3 p2 (small.small2 p4 p3 p2)) in
      rw
        (
          map_page,
          ensure_table-Present mmu cr3 s _ _ _ (slot4 mmu s.words cr3 v m low) p4,
          ensure_table-Present mmu cr3 s _ _ _ (slot3 mmu s.words cr3 v m low p4) p3,
          ensure_table-Present mmu cr3 s _ _ _
              (slot2 mmu s.words cr3 v m low p4 (small.small4 p4) p3) p2,
        )
        (set_page-Present mmu cr3 s _ _ _ _
          (slot1 mmu s.words cr3 v m low p4 (small.small4 p4) p3 (small.small3 p4 p3) p2) p1)
