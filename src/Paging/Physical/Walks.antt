-- ===== src/Paging/Physical/Walks.antt =====
-- The walks of the tables in src/mem/paging.c agree with the processor where the tables can be read at
-- their physical addresses.
use potatos.Base.{
  ℕ, ◌+◌, ◌*◌, ◌/◌, ◌%◌, ◌^◌, ◌<◌, ◌≡◌, ◌≢◌, ◌↔◌, refl, ◌∙◌, ap, sym, Bool, true, false, ◌==◌,
  if◌then◌else◌, Option, none, some, inl, inr, arith, bit_and, bit_or, bit_and-ones,
  bit_and-page_mask, bit_or-fields,
}
use mathlib.Core.Option.{some-injective, none-ne-some}
use mathlib.Core.Bool.{true≢false}
use mathlib.Core.Path.{subst}
use potatos.Paging.{
  Words, Mmu, Machine, is_present, frame, Canonical, Present, level4, level3, level2, level1,
  pdpr_entry, pd_entry, pt_entry,
}
use potatos.Paging.Windows.{entry_lem}
use potatos.Paging.Mapped.{is_present_lem, HasSmallPages, parity, translated}
use potatos.Paging.Physical.{
  pointer, follow, is_physical_memory_mapped, page_address, translate_virtual_address,
  get_next_table_entry, get_physical_address,
}

-- An entry with no bit from bit 52 on.
abbrev pub Plain : ℕ → Type 0
Plain entry = entry < 2 ^ 52

pointer_lem : (entry : ℕ) → Plain entry → pointer entry ≡ frame entry
pointer_lem entry plain = omega (arith, bit_and-page_mask entry (omega arith))

-- The top table is seen at `top`, and the tables on the way of `v` below it at their physical
-- addresses; their entries are plain.
pub record IsDirect (mmu : Mmu) (cr3 : ℕ) (words : Words) (top v : ℕ) : Type 0 where
  pub see4 :
      mmu.translate words cr3 (top + 8 * (v / 2 ^ 39 % 512)) ≡ some (cr3 + 8 * (v / 2 ^ 39 % 512))
  pub plain4 : Plain (level4 words cr3 v)
  pub see3 :
      Present (level4 words cr3 v)
      → mmu.translate words cr3 (frame (level4 words cr3 v) + 8 * (v / 2 ^ 30 % 512))
        ≡ some (frame (level4 words cr3 v) + 8 * (v / 2 ^ 30 % 512))
  pub plain3 : Present (level4 words cr3 v) → Plain (level3 words cr3 v)
  pub see2 :
      Present (level4 words cr3 v)
      → Present (level3 words cr3 v)
      → mmu.translate words cr3 (frame (level3 words cr3 v) + 8 * (v / 2 ^ 21 % 512))
        ≡ some (frame (level3 words cr3 v) + 8 * (v / 2 ^ 21 % 512))
  pub plain2 :
      Present (level4 words cr3 v) → Present (level3 words cr3 v) → Plain (level2 words cr3 v)
  pub see1 :
      Present (level4 words cr3 v)
      → Present (level3 words cr3 v)
      → Present (level2 words cr3 v)
      → mmu.translate words cr3 (frame (level2 words cr3 v) + 8 * (v / 2 ^ 12 % 512))
        ≡ some (frame (level2 words cr3 v) + 8 * (v / 2 ^ 12 % 512))
  pub plain1 :
      Present (level4 words cr3 v)
      → Present (level3 words cr3 v)
      → Present (level2 words cr3 v)
      → Plain (level1 words cr3 v)

module _ (mmu : Mmu) (cr3 : ℕ) (s : Machine) where
  follow-Present {ℓ} :
      {A : Type ℓ} (table index i a : ℕ) (missing : A) (next : ℕ → Option A)
      → index ≡ i
      → mmu.translate s.words cr3 (table + 8 * i) ≡ some a
      → Present (s.words a)
      → Plain (s.words a)
      → follow mmu cr3 s table index missing next ≡ next (frame (s.words a))
  unfolding follow
  follow-Present table index i a missing next e see present plain =
      let t : is_present (s.words a) ≡ true = ground (arith, is_present_lem (s.words a)) in
      rw (e, follow, see, t) (ap next (pointer_lem (s.words a) plain))

  follow-absent {ℓ} :
      {A : Type ℓ} (table index i a : ℕ) (missing : A) (next : ℕ → Option A)
      → index ≡ i
      → mmu.translate s.words cr3 (table + 8 * i) ≡ some a
      → s.words a % 2 ≡ 0
      → follow mmu cr3 s table index missing next ≡ some missing
  unfolding follow
  follow-absent table index i a missing next e see absent =
      let t : is_present (s.words a) ≡ false = ground (arith, is_present_lem (s.words a)) in
      rw (e, follow, see, t) refl

  page_address_lem :
      (table v a : ℕ)
      → mmu.translate s.words cr3 (table + 8 * (v / 2 ^ 12 % 512)) ≡ some a
      → Plain (s.words a)
      → page_address mmu cr3 s table v ≡ some (frame (s.words a) + v % 4096)
  unfolding page_address
  page_address_lem table v a see plain =
      let index = (entry_lem v).3 in
      let whole : bit_or (pointer (s.words a)) (bit_and v 0xfff) ≡ frame (s.words a) + v % 4096 =
        ap (λ u. bit_or u (bit_and v 0xfff)) (pointer_lem (s.words a) plain)
        ∙ ap (bit_or (frame (s.words a))) (bit_and-ones 12 v)
        ∙ bit_or-fields 12 (s.words a / 4096 % 2 ^ 40) (v % 4096) (omega arith) in
      rw (index, page_address, see) (ap some whole)

  -- `get_next_table_entry` of a table that is not `NULL`.
  get_next_table_entry-Present :
      (table index i a : ℕ)
      → table ≢ 0
      → index ≡ i
      → mmu.translate s.words cr3 (table + 8 * i) ≡ some a
      → Present (s.words a)
      → Plain (s.words a)
      → get_next_table_entry mmu cr3 s table index ≡ some (frame (s.words a))
  unfolding get_next_table_entry
  get_next_table_entry-Present table index i a real e see present plain =
      let t : (table == 0) ≡ false = ground arith in
      ap (λ c. if c then some 0 else follow mmu cr3 s table index 0 (λ next. some next)) t
      ∙ follow-Present table index i a 0 (λ next. some next) e see present plain

module _ (mmu : Mmu) (cr3 : ℕ) (s : Machine) (v : ℕ) (canonical : Canonical v)
    (small : HasSmallPages s.words cr3 v) where
  -- What the processor finds when it translates the address.
  record Way (t : ℕ) : Type 0 where
    p4 : Present (level4 s.words cr3 v)
    p3 : Present (level3 s.words cr3 v)
    p2 : Present (level2 s.words cr3 v)
    p1 : Present (level1 s.words cr3 v)
    result : frame (level1 s.words cr3 v) + v % 4096 ≡ t

  translate-Way : (t : ℕ) → mmu.translate s.words cr3 v ≡ some t → Way t
  translate-Way t h =
      let p4 : Present (level4 s.words cr3 v) =
        translated _ h (mmu.fault4 s.words cr3 v canonical) in
      let p3 : Present (level3 s.words cr3 v) =
        translated _ h (mmu.fault3 s.words cr3 v canonical p4) in
      let s3 = small.small3 p4 p3 in
      let p2 : Present (level2 s.words cr3 v) =
        translated _ h (mmu.fault2 s.words cr3 v canonical p4 p3 s3) in
      let s2 = small.small2 p4 p3 p2 in
      let p1 : Present (level1 s.words cr3 v) =
        translated _ h (mmu.fault1 s.words cr3 v canonical p4 p3 s3 p2 s2) in
      record {
        p4 = p4;
        p3 = p3;
        p2 = p2;
        p1 = p1;
        result = some-injective _ _ (sym (mmu.walk s.words cr3 v canonical p4 p3 s3 p2 s2 p1) ∙ h);
      }

  -- `translate_virtual_address` of an address that the processor translates returns the processor's
  -- result, if the table at 0x109000 is the top table, the tables on the way can be read at their
  -- physical addresses, no entry on the way is for a large page or has a bit from bit 52 on, and the
  -- address is canonical.
  pub translate_virtual_address_lem :
      (t : ℕ)
      → IsDirect mmu cr3 s.words 0x109000 v
      → mmu.translate s.words cr3 v ≡ some t
      → translate_virtual_address mmu cr3 s v ≡ some t
  unfolding translate_virtual_address
  translate_virtual_address_lem t d h =
      let w = translate-Way t h in
      let index = entry_lem v in
      let page =
        page_address_lem mmu cr3 s (frame (level2 s.words cr3 v)) v _ (d.see1 w.p4 w.p3 w.p2)
          (d.plain1 w.p4 w.p3 w.p2)
        ∙ ap some w.result in
      let down : (table : ℕ) → Option ℕ = λ table. page_address mmu cr3 s table v in
      let second : (table : ℕ) → Option ℕ = λ table. follow mmu cr3 s table (pd_entry v) 0 down in
      let third : (table : ℕ) → Option ℕ =
        λ table. follow mmu cr3 s table (pdpr_entry v) 0 second in
      follow-Present mmu cr3 s 0x109000 _ _ _ 0 third index.0 d.see4 w.p4 d.plain4
      ∙ follow-Present mmu cr3 s _ _ _ _ 0 second index.1 (d.see3 w.p4) w.p3 (d.plain3 w.p4)
      ∙ follow-Present mmu cr3 s _ _ _ _ 0 down index.2 (d.see2 w.p4 w.p3) w.p2 (d.plain2 w.p4 w.p3)
      ∙ page

  -- `get_physical_address` of an address that the processor translates returns the processor's result,
  -- if the top table is seen at `p4_table`, the tables on the way can be read at their physical
  -- addresses and are not at 0, no entry on the way is for a large page or has a bit from bit 52 on,
  -- and the address is canonical.
  pub get_physical_address_lem :
      (t p4_table : ℕ)
      → IsDirect mmu cr3 s.words p4_table v
      → p4_table ≢ 0
      → frame (level4 s.words cr3 v) ≢ 0
      → frame (level3 s.words cr3 v) ≢ 0
      → mmu.translate s.words cr3 v ≡ some t
      → get_physical_address mmu cr3 s p4_table v ≡ some t
  unfolding get_physical_address
  get_physical_address_lem t p4_table d top real3 real2 h =
      let w = translate-Way t h in
      let index = entry_lem v in
      rw
        (
          get_physical_address,
          get_next_table_entry-Present mmu cr3 s _ _ _ _ top index.0 d.see4 w.p4 d.plain4,
          get_next_table_entry-Present mmu cr3 s _ _ _ _ real3 index.1 (d.see3 w.p4) w.p3
              (d.plain3 w.p4),
          get_next_table_entry-Present mmu cr3 s _ _ _ _ real2 index.2 (d.see2 w.p4 w.p3) w.p2
              (d.plain2 w.p4 w.p3),
        )
        (page_address_lem mmu cr3 s _ v _ (d.see1 w.p4 w.p3 w.p2) (d.plain1 w.p4 w.p3 w.p2)
          ∙ ap some w.result)

  low : v < 2 ^ 64
  low = omega arith

  -- The answer to whether the address is mapped to itself.
  abbrev pub Identical : Option Bool → Type 0
  Identical r = (b : Bool) × (r ≡ some b) × ((b ≡ true) ↔ (mmu.translate s.words cr3 v ≡ some v))

  absent-Identical :
      (r : Option Bool) → r ≡ some false → mmu.translate s.words cr3 v ≡ none → Identical r
  absent-Identical r e fault =
      (false, e, ((λ n. absurd (true≢false (sym n))), λ h. absurd (none-ne-some _ (sym fault ∙ h))))

  follow-Identical :
      (table index i a : ℕ) (next : ℕ → Option Bool)
      → index ≡ i
      → mmu.translate s.words cr3 (table + 8 * i) ≡ some a
      → (Present (s.words a) → Plain (s.words a))
      → (Present (s.words a) → Identical (next (frame (s.words a))))
      → (s.words a % 2 ≡ 0 → mmu.translate s.words cr3 v ≡ none)
      → Identical (follow mmu cr3 s table index false next)
  follow-Identical table index i a next e see plain present absent = elim (parity (s.words a)) [
    | inl p ↦
        subst Identical
          (sym (follow-Present mmu cr3 s table index i a false next e see p (plain p))) (present p)
    | inr n ↦
        absent-Identical _ (follow-absent mmu cr3 s table index i a false next e see n) (absent n)
  ]

  page-Identical :
      (page : ℕ)
      → mmu.translate s.words cr3 v ≡ some (frame page + v % 4096)
      → Identical (some (frame page == pointer v))
  page-Identical page t =
      let mine : pointer v ≡ v / 4096 * 4096 = bit_and-page_mask v low in
      (
        frame page == pointer v,
        refl,
        (
          λ e. t ∙ ap some (ground (arith, mine)),
          λ h.
              let e : frame page + v % 4096 ≡ v = some-injective _ _ (sym t ∙ h) in
              ground (arith, mine),
        ),
      )

  -- `is_physical_memory_mapped` of an address does not fault, and says yes exactly if the processor
  -- translates the address to itself, if the table that it is given is the top table, the tables on
  -- the way can be read at their physical addresses, no entry on the way is for a large page or has a
  -- bit from bit 52 on, and the address is canonical.
  pub is_physical_memory_mapped_lem :
      (pml4_table : ℕ)
      → IsDirect mmu cr3 s.words pml4_table v
      → Identical (is_physical_memory_mapped mmu cr3 s v pml4_table)
  unfolding is_physical_memory_mapped
  is_physical_memory_mapped_lem pml4_table d =
      let index = entry_lem v in
      let last : ℕ → Option Bool = λ page. some (page == pointer v) in
      let first : ℕ → Option Bool = λ table. follow mmu cr3 s table (pt_entry v) false last in
      let second : ℕ → Option Bool = λ table. follow mmu cr3 s table (pd_entry v) false first in
      let third : ℕ → Option Bool = λ table. follow mmu cr3 s table (pdpr_entry v) false second in
      follow-Identical _ _ _ _ third index.0 d.see4 (λ p4. d.plain4)
        (λ p4.
          follow-Identical _ _ _ _ second index.1 (d.see3 p4) (λ p3. d.plain3 p4)
            (λ p3.
              let s3 = small.small3 p4 p3 in
              follow-Identical _ _ _ _ first index.2 (d.see2 p4 p3) (λ p2. d.plain2 p4 p3)
                (λ p2.
                  let s2 = small.small2 p4 p3 p2 in
                  follow-Identical _ _ _ _ last index.3 (d.see1 p4 p3 p2) (λ p1. d.plain1 p4 p3 p2)
                    (λ p1. page-Identical _ (mmu.walk s.words cr3 v canonical p4 p3 s3 p2 s2 p1))
                    (mmu.fault1 s.words cr3 v canonical p4 p3 s3 p2 s2))
                (mmu.fault2 s.words cr3 v canonical p4 p3 s3))
            (mmu.fault3 s.words cr3 v canonical p4))
        (mmu.fault4 s.words cr3 v canonical)
