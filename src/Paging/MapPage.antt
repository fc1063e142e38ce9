-- ===== src/Paging/MapPage.antt =====
-- `map_page` of src/mem/paging.c maps an address that is not mapped.
use potatos.Base.{
  ℕ, ◌+◌, ◌*◌, ◌/◌, ◌%◌, ◌^◌, ◌<◌, ◌≡◌, refl, ap, ◌∙◌, some, arith, false, bit_or, bit_or-fields,
  bit_and-page_mask,
}
use potatos.Paging.{
  write_word, Mmu, Machine, Canonical, frame, Present, level4, level3, level2, level1,
  align_to_page, pml4_table, pdpr_table, pd_table, pt_table, pml4_entry, pdpr_entry, pd_entry,
  pt_entry, is_present, ensure_table, set_page, map_page,
}
use potatos.Paging.Windows.{slot1}
use potatos.Paging.Mapped.{is_present_lem}
use potatos.Paging.NewTable.{Supply}
use potatos.Paging.Path.{IsPath}
use potatos.Paging.Steps.{distinct_tables}
use potatos.Paging.Others.{IsMapped, StillUsed, Keeps-trans, write-Keeps, translate-Keeps}
use potatos.Paging.Ensure.{ensure4, ensure3, ensure2}

-- The last entry: a page's address, and flags that say that it is present.
last_entry :
    (physical_address flags : ℕ)
    → physical_address < 2 ^ 52
    → flags < 256
    → flags % 2 ≡ 1
    → let entry = bit_or (align_to_page physical_address) flags in
      Present entry × (frame entry ≡ physical_address / 4096 * 4096)
last_entry physical_address flags small byte present =
    let aligned = bit_and-page_mask physical_address (omega arith) in
    let sum = bit_or-fields 12 (physical_address / 4096) flags (omega arith) in
    rw (aligned, sum) (omega arith, omega arith)

module _ (mmu : Mmu) (cr3 v : ℕ) (canonical : Canonical v) (s : Machine) (p : IsPath cr3 v s)
    (p4 : Present (level4 s.words cr3 v)) (p3 : Present (level3 s.words cr3 v))
    (p2 : Present (level2 s.words cr3 v)) where
  abbrev last_slot : ℕ
  last_slot = frame (level2 s.words cr3 v) + 8 * (v / 2 ^ 12 % 512)

  -- `set_page` writes the entry.
  set_page-absent :
      (entry physical_address flags : ℕ)
      → bit_or physical_address flags ≡ entry
      → set_page mmu cr3
          (pt_table (align_to_page v) + 8 * pt_entry (align_to_page v))
          physical_address
          flags
          s
        ≡ some (record s { words = write_word s.words last_slot entry })
  unfolding set_page
  set_page-absent entry physical_address flags e =
      let see =
        slot1 mmu s.words cr3 v p.self (omega arith) p4 (p.way.at4 p4).0 p3 (p.way.at3 p4 p3).0
          p2 in
      let t : is_present (level1 s.words cr3 v) ≡ false =
        ground (arith, is_present_lem (level1 s.words cr3 v), p.way.unmapped p4 p3 p2) in
      rw (set_page, see, t, e, see) refl

  -- The processor finds the page of the new entry.
  translate-last :
      (entry : ℕ)
      → Present entry
      → mmu.translate (write_word s.words last_slot entry) cr3 v ≡ some (frame entry + v % 4096)
  translate-last entry present =
      let l4 = level4 s.words cr3 v in
      let l3 = level3 s.words cr3 v in
      let l2 = level2 s.words cr3 v in
      let words = write_word s.words last_slot entry in
      let (small4, used4, away4) = p.way.at4 p4 in
      let (small3, used3, away3, apart3) = p.way.at3 p4 p3 in
      let (small2, used2, away2, apart24, apart23) = p.way.at2 p4 p3 p2 in
      let flat2 : frame l2 % 4096 ≡ 0 = omega arith in
      let i1 : v / 2 ^ 12 % 512 < 512 = omega arith in
      let d4 =
        distinct_tables (frame l2) cr3 (v / 2 ^ 12 % 512) (v / 2 ^ 39 % 512) flat2 p.aligned away2
          i1 (omega arith) in
      let d3 =
        distinct_tables (frame l2) (frame l4) (v / 2 ^ 12 % 512) (v / 2 ^ 30 % 512) flat2
          (omega arith) apart24 i1 (omega arith) in
      let d2 =
        distinct_tables (frame l2) (frame l3) (v / 2 ^ 12 % 512) (v / 2 ^ 21 % 512) flat2
          (omega arith) apart23 i1 (omega arith) in
      let e4 : level4 words cr3 v ≡ l4 = ground (arith, d4) in
      let e3 : level3 words cr3 v ≡ l3 = rw e4 (ground (arith, d3)) in
      let e2 : level2 words cr3 v ≡ l2 = rw e3 (ground (arith, d2)) in
      let e1 : level1 words cr3 v ≡ entry = rw e2 (ground arith) in
      let found =
        mmu.walk words cr3 v canonical (rw e4 p4) (rw e3 p3) (rw e3 small3) (rw e2 p2)
          (rw e2 small2) (rw e1 present) in
      found ∙ ap (λ l. some (frame l + v % 4096)) e1

-- The chain of `map_page`.
map_page_step :
    (mmu : Mmu) (cr3 v physical_address flags : ℕ) (s : Machine) {s4 s3 s2 end : Machine}
    → ensure_table mmu cr3
        (pml4_table + 8 * pml4_entry (align_to_page v))
        (pdpr_table (align_to_page v))
        s
      ≡ some s4
    → ensure_table mmu cr3
        (pdpr_table (align_to_page v) + 8 * pdpr_entry (align_to_page v))
        (pd_table (align_to_page v))
        s4
      ≡ some s3
    → ensure_table mmu cr3
        (pd_table (align_to_page v) + 8 * pd_entry (align_to_page v))
        (pt_table (align_to_page v))
        s3
      ≡ some s2
    → set_page mmu cr3
        (pt_table (align_to_page v) + 8 * pt_entry (align_to_page v))
        (align_to_page physical_address)
        flags
        s2
      ≡ some end
    → map_page mmu cr3 v physical_address flags s ≡ some end
unfolding map_page
map_page_step mmu cr3 v physical_address flags s r4 r3 r2 r1 = rw (map_page, r4, r3, r2) r1

-- What `map_page` does, and that the pages that were used are still used.
pub map_page-StillUsed :
    (mmu : Mmu) (cr3 v physical_address flags : ℕ) (s : Machine)
    → Canonical v
    → physical_address < 2 ^ 52
    → flags < 256
    → flags % 2 ≡ 1
    → IsPath cr3 v s
    → Supply 3 s.bitmap
    → (s' : Machine) × (map_page mmu cr3 v physical_address flags s ≡ some s')
      × (mmu.translate s'.words cr3 v ≡ some (physical_address / 4096 * 4096 + v % 4096))
      × StillUsed s.bitmap s'.bitmap
      × ((w : ℕ)
          → Canonical w
          → IsMapped cr3 w s
          → mmu.translate s'.words cr3 w ≡ mmu.translate s.words cr3 w)
map_page-StillUsed mmu cr3 v physical_address flags s canonical small byte present p supply =
    let low : v < 2 ^ 64 = omega arith in
    let (s4, run4, path4, keeps4, still4, supply4, p4) = ensure4 mmu cr3 v low 2 s p supply in
    let (s3, run3, path3, keeps3, still3, supply3, q4, q3) =
      ensure3 mmu cr3 v low 1 s4 path4 supply4 p4 in
    let (s2, run2, path2, keeps2, still2, r4, r3, r2) =
      ensure2 mmu cr3 v low s3 path3 supply3 q4 q3 in
    let (seen, framed) = last_entry physical_address flags small byte present in
    let entry = bit_or (align_to_page physical_address) flags in
    let slot = last_slot mmu cr3 v canonical s2 path2 r4 r3 r2 in
    let end : Machine = record s2 { words = write_word s2.words slot entry } in
    let keeps1 = write-Keeps cr3 slot entry s2 path2.aligned (path2.way.unmapped r4 r3 r2) in
    (
      end,
      map_page_step mmu cr3 v physical_address flags s run4 run3 run2
          (set_page-absent mmu cr3 v canonical s2 path2 r4 r3 r2 entry _ flags refl),
      translate-last mmu cr3 v canonical s2 path2 r4 r3 r2 entry seen
          ∙ ap (λ f. some (f + v % 4096)) framed,
      λ q u. still2 q (still3 q (still4 q u)),
      translate-Keeps mmu cr3 s end (
          Keeps-trans cr3 s s4 end keeps4
            (Keeps-trans cr3 s4 s3 end keeps3 (Keeps-trans cr3 s3 s2 end keeps2 keeps1))),
    )

-- `map_page` of a canonical address that is not mapped returns, with three free pages for tables, and
-- from then on the processor translates the address to the page at `physical_address`, if the top table
-- maps itself, the address is not in the part of the tables, the flags say that the page is present,
-- and the tables on the way are different used pages with small pages below. Every other address that
-- was mapped through tables on used pages is translated as before.
pub map_page_lem :
    (mmu : Mmu) (cr3 v physical_address flags : ℕ) (s : Machine)
    → Canonical v
    → physical_address < 2 ^ 52
    → flags < 256
    → flags % 2 ≡ 1
    → IsPath cr3 v s
    → Supply 3 s.bitmap
    → (s' : Machine) × (map_page mmu cr3 v physical_address flags s ≡ some s')
      × (mmu.translate s'.words cr3 v ≡ some (physical_address / 4096 * 4096 + v % 4096))
      × ((w : ℕ)
          → Canonical w
          → IsMapped cr3 w s
          → mmu.translate s'.words cr3 w ≡ mmu.translate s.words cr3 w)
map_page_lem mmu cr3 v physical_address flags s canonical small byte present p supply =
    let (end, run, found, still, others) =
      map_page-StillUsed mmu cr3 v physical_address flags s canonical small byte present p supply in
    (end, run, found, others)
