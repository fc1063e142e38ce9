-- ===== src/Paging/MapNew.antt =====
-- `map_if_not_mapped` of src/mem/paging.c maps a new page.
use potatos.Base.{
  ℕ, ◌+◌, ◌*◌, ◌/◌, ◌%◌, ◌≡◌, refl, ap, ◌∙◌, inl, inr, some, none, arith, true, false,
}
use potatos.Bitmap.{Bitmap, is_page_free, allocate_physical_page}
use potatos.Paging.{
  Mmu, Machine, Canonical, frame, level4, level3, level2, is_virtual_memory_mapped, map_page,
  map_if_not_mapped,
}
use potatos.Paging.Mapped.{parity, is_virtual_memory_mapped_lem}
use potatos.Paging.NewTable.{Supply, IsNew, allocate-IsNew}
use potatos.Paging.Path.{IsUsed, IsWay, IsPath}
use potatos.Paging.Others.{IsMapped, IsTaken}
use potatos.Paging.MapPage.{map_page-StillUsed}

-- A page that is taken for data was used by nobody.
module _ {b b' : Bitmap} {page : ℕ} (new : IsNew b b' page) where
  IsUsed-after : (t : ℕ) → IsUsed b t → IsUsed b' t
  IsUsed-after t u = ground (arith, new.now (t / 4096))

  IsWay-after : {top l4 l3 l2 l1 : ℕ} → IsWay b top l4 l3 l2 l1 → IsWay b' top l4 l3 l2 l1
  IsWay-after {top} {l4} {l3} {l2} w = record {
    at4 = λ p4. let (small, used, away) = w.at4 p4 in (small, IsUsed-after (frame l4) used, away);
    at3 = λ p4 p3.
        let (small, used, away, apart) = w.at3 p4 p3 in
        (small, IsUsed-after (frame l3) used, away, apart);
    at2 = λ p4 p3 p2.
        let (small, used, away, apart4, apart3) = w.at2 p4 p3 p2 in
        (small, IsUsed-after (frame l2) used, away, apart4, apart3);
    unmapped = w.unmapped;
  }

  IsPath-after :
      {cr3 v : ℕ} {s : Machine}
      → b ≡ s.bitmap
      → IsPath cr3 v s
      → IsPath cr3 v (record s { bitmap = b' })
  IsPath-after {cr3} {v} {s} same p = record {
    self = p.self;
    bitmap = new.valid;
    aligned = p.aligned;
    other = p.other;
    used = IsUsed-after cr3 (rw same p.used);
    way = IsWay-after (rw same p.way);
  }

  IsTaken-after : {top l4 l3 l2 l1 : ℕ} → IsTaken b top l4 l3 l2 l1 → IsTaken b' top l4 l3 l2 l1
  IsTaken-after {top} {l4} {l3} {l2} m = record {
    used = IsUsed-after top m.used;
    present4 = m.present4;
    used4 = IsUsed-after (frame l4) m.used4;
    present3 = m.present3;
    small3 = m.small3;
    used3 = IsUsed-after (frame l3) m.used3;
    present2 = m.present2;
    small2 = m.small2;
    used2 = IsUsed-after (frame l2) m.used2;
    present1 = m.present1;
  }

-- An address whose way is not complete is not translated.
IsPath-fault :
    (mmu : Mmu) (cr3 v : ℕ) (s : Machine)
    → Canonical v
    → IsPath cr3 v s
    → mmu.translate s.words cr3 v ≡ none
IsPath-fault mmu cr3 v s canonical p = elim (parity (level4 s.words cr3 v)) [
  | inr n4 ↦ mmu.fault4 s.words cr3 v canonical n4
  | inl p4 ↦ elim (parity (level3 s.words cr3 v)) [
    | inr n3 ↦ mmu.fault3 s.words cr3 v canonical p4 n3
    | inl p3 ↦
        let small3 = (p.way.at3 p4 p3).0 in
        elim (parity (level2 s.words cr3 v)) [
          | inr n2 ↦ mmu.fault2 s.words cr3 v canonical p4 p3 small3 n2
          | inl p2 ↦
              mmu.fault1 s.words cr3 v canonical p4 p3 small3 p2 (p.way.at2 p4 p3 p2).0
                (p.way.unmapped p4 p3 p2)
        ]
  ]
]

IsPath-says_no :
    (mmu : Mmu) (cr3 v : ℕ) (s : Machine)
    → Canonical v
    → IsPath cr3 v s
    → is_virtual_memory_mapped mmu cr3 v s ≡ some false
IsPath-says_no mmu cr3 v s canonical p =
    let fault = IsPath-fault mmu cr3 v s canonical p in
    elim (is_virtual_memory_mapped_lem mmu cr3 s v p.self canonical (record {
      small4 = λ p4. (p.way.at4 p4).0;
      small3 = λ p4 p3. (p.way.at3 p4 p3).0;
      small2 = λ p4 p3 p2. (p.way.at2 p4 p3 p2).0;
    })) [
      | inl yes_answer ↦ absurd (ground (arith, yes_answer.1, fault))
      | inr no_answer ↦ no_answer.0
    ]

map_new_step :
    (mmu : Mmu) (cr3 v : ℕ) (s : Machine) {end : Machine}
    → is_virtual_memory_mapped mmu cr3 v s ≡ some false
    → map_page mmu cr3 v
        (allocate_physical_page s.bitmap).0
        3
        (record s { bitmap = (allocate_physical_page s.bitmap).1 })
      ≡ some end
    → map_if_not_mapped mmu cr3 v s ≡ some (end, true)
unfolding map_if_not_mapped
map_new_step mmu cr3 v s says run = rw (map_if_not_mapped, says, run) refl

-- `map_if_not_mapped` of a canonical address that is not mapped returns 1, with four free pages, and
-- from then on the processor translates the address to a page that was free before and is used now, if the top
-- table maps itself, the address is not in the part of the tables, and the tables on the way are
-- different used pages with small pages below. Every other address that was mapped through tables on
-- used pages is translated as before.
pub map_if_not_mapped_lem :
    (mmu : Mmu) (cr3 v : ℕ) (s : Machine)
    → Canonical v
    → IsPath cr3 v s
    → Supply 4 s.bitmap
    → (s' : Machine) × (map_if_not_mapped mmu cr3 v s ≡ some (s', true))
      × (page : ℕ) × (is_page_free s.bitmap page ≡ true)
      × (is_page_free s'.bitmap page ≡ false)
      × (mmu.translate s'.words cr3 v ≡ some (page * 4096 + v % 4096))
      × ((w : ℕ)
          → Canonical w
          → IsMapped cr3 w s
          → mmu.translate s'.words cr3 w ≡ mmu.translate s.words cr3 w)
map_if_not_mapped_lem mmu cr3 v s canonical p supply =
    let new = allocate-IsNew s.bitmap p.bitmap supply.0 in
    let after : Machine = record s { bitmap = (allocate_physical_page s.bitmap).1 } in
    let place = new.address in
    let (end, run, found, still, others) =
      map_page-StillUsed mmu cr3 v (allocate_physical_page s.bitmap).0 3 after canonical
        (omega (arith, new.low)) (omega arith) (omega arith) (IsPath-after new refl p) supply.1 in
    (
      end,
      map_new_step mmu cr3 v s (IsPath-says_no mmu cr3 v s canonical p) run,
      new.page,
      new.was_free,
      still new.page (ground (arith, new.now new.page)),
      found ∙ ap some (omega (arith, place)),
      λ w cw m. others w cw (IsTaken-after new m),
    )
