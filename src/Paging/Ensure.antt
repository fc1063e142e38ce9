-- ===== src/Paging/Ensure.antt =====
-- The three `if`s of `map_page` of src/mem/paging.c that see to the tables on the way of an address.
use potatos.Base.{ℕ, suc, ◌+◌, ◌*◌, ◌^◌, ◌<◌, ◌≡◌, refl, ap, sym, ◌∙◌, inl, inr, some}
use potatos.Paging.{
  Mmu, Machine, frame, Present, level4, level3, level2, align_to_page, pml4_table, pdpr_table,
  pd_table, pt_table, pml4_entry, pdpr_entry, pd_entry, ensure_table,
}
use potatos.Paging.Windows.{slot4, slot3, slot2, table3_at, table2_at, table1_at}
use potatos.Paging.Mapped.{parity, ensure_table-Present}
use potatos.Paging.NewTable.{Supply, Supply-pred}
use potatos.Paging.Grow.{ensure_table-IsGrown}
use potatos.Paging.Path.{IsPath, new_frame}
use potatos.Paging.Others.{Keeps, added-Keeps, StillUsed, added-StillUsed}
use potatos.Paging.Steps.{added4, added3, added2, IsPath-step4, IsPath-step3, IsPath-step2}

module _ (mmu : Mmu) (cr3 v : ℕ) (low : v < 2 ^ 64) where
  pub ensure4 :
      (n : ℕ) (s : Machine)
      → IsPath cr3 v s
      → Supply (suc n) s.bitmap
      → (s' : Machine) × (ensure_table mmu cr3
            (pml4_table + 8 * pml4_entry (align_to_page v))
            (pdpr_table (align_to_page v))
            s
          ≡ some s')
        × IsPath cr3 v s'
        × Keeps cr3 s s'
        × StillUsed s.bitmap s'.bitmap
        × Supply n s'.bitmap
        × Present (level4 s'.words cr3 v)
  ensure4 n s p supply =
      let see = slot4 mmu s.words cr3 v p.self low in
      elim (parity (level4 s.words cr3 v)) [
        | inl p4 ↦ (
          s,
          ensure_table-Present mmu cr3 s _ _ _ see p4,
          p,
          λ w m. (m, refl),
          λ q u. u,
          Supply-pred n s.bitmap supply,
          p4,
        )
        | inr none4 ↦
            let (s', run, g) =
              ensure_table-IsGrown mmu cr3 _ (pdpr_table (align_to_page v)) _ s see none4 p.bitmap
                supply.0
                (λ table t g e he.
                  let (framed, present, small) = new_frame g in
                  let (self, e4) = added4 p g in
                  let f4 : frame (level4 t.words cr3 v) ≡ table = ap frame e4 ∙ framed in
                  rw (sym f4) (table3_at mmu t.words cr3 v self low e he (rw e4 present))) in
            let (path, p4) = IsPath-step4 p g in
            (
              s',
              run,
              path,
              added-Keeps cr3 p.aligned none4 g.added,
              added-StillUsed g.added,
              rw g.taken supply.1,
              p4,
            )
      ]

  pub ensure3 :
      (n : ℕ) (s : Machine)
      → IsPath cr3 v s
      → Supply (suc n) s.bitmap
      → Present (level4 s.words cr3 v)
      → (s' : Machine) × (ensure_table mmu cr3
            (pdpr_table (align_to_page v) + 8 * pdpr_entry (align_to_page v))
            (pd_table (align_to_page v))
            s
          ≡ some s')
        × IsPath cr3 v s'
        × Keeps cr3 s s'
        × StillUsed s.bitmap s'.bitmap
        × Supply n s'.bitmap
        × Present (level4 s'.words cr3 v)
        × Present (level3 s'.words cr3 v)
  ensure3 n s p supply p4 =
      let see = slot3 mmu s.words cr3 v p.self low p4 in
      let small4 = (p.way.at4 p4).0 in
      elim (parity (level3 s.words cr3 v)) [
        | inl p3 ↦ (
          s,
          ensure_table-Present mmu cr3 s _ _ _ see p3,
          p,
          λ w m. (m, refl),
          λ q u. u,
          Supply-pred n s.bitmap supply,
          p4,
          p3,
        )
        | inr none3 ↦
            let (s', run, g) =
              ensure_table-IsGrown mmu cr3 _ (pd_table (align_to_page v)) _ s see none3 p.bitmap
                supply.0
                (λ table t g e he.
                  let (framed, present, small) = new_frame g in
                  let (self, e4, e3) = added3 p p4 g in
                  let f3 : frame (level3 t.words cr3 v) ≡ table = ap frame e3 ∙ framed in
                  rw (sym f3) (
                    table2_at mmu t.words cr3 v self low e he (rw e4 p4) (rw e4 small4)
                      (rw e3 present))) in
            let (path, q4, q3) = IsPath-step3 p p4 g in
            (
              s',
              run,
              path,
              added-Keeps cr3 p.aligned none3 g.added,
              added-StillUsed g.added,
              rw g.taken supply.1,
              q4,
              q3,
            )
      ]

  pub ensure2 :
      (s : Machine)
      → IsPath cr3 v s
      → Supply 1 s.bitmap
      → Present (level4 s.words cr3 v)
      → Present (level3 s.words cr3 v)
      → (s' : Machine) × (ensure_table mmu cr3
            (pd_table (align_to_page v) + 8 * pd_entry (align_to_page v))
            (pt_table (align_to_page v))
            s
          ≡ some s')
        × IsPath cr3 v s'
        × Keeps cr3 s s'
        × StillUsed s.bitmap s'.bitmap
        × Present (level4 s'.words cr3 v)
        × Present (level3 s'.words cr3 v)
        × Present (level2 s'.words cr3 v)
  ensure2 s p supply p4 p3 =
      let small4 = (p.way.at4 p4).0 in
      let small3 = (p.way.at3 p4 p3).0 in
      let see = slot2 mmu s.words cr3 v p.self low p4 small4 p3 in
      elim (parity (level2 s.words cr3 v)) [
        | inl p2 ↦ (
          s,
          ensure_table-Present mmu cr3 s _ _ _ see p2,
          p,
          λ w m. (m, refl),
          λ q u. u,
          p4,
          p3,
          p2,
        )
        | inr none2 ↦
            let (s', run, g) =
              ensure_table-IsGrown mmu cr3 _ (pt_table (align_to_page v)) _ s see none2 p.bitmap
                supply.0
                (λ table t g e he.
                  let (framed, present, small) = new_frame g in
                  let (self, e4, e3, e2) = added2 p p4 p3 g in
                  let f2 : frame (level2 t.words cr3 v) ≡ table = ap frame e2 ∙ framed in
                  rw (sym f2) (
                    table1_at mmu t.words cr3 v self low e he (rw e4 p4) (rw e4 small4) (rw e3 p3)
                      (rw e3 small3) (rw e2 present))) in
            let (path, q4, q3, q2) = IsPath-step2 p p4 p3 g in
            (
              s',
              run,
              path,
              added-Keeps cr3 p.aligned none2 g.added,
              added-StillUsed g.added,
              q4,
              q3,
              q2,
            )
      ]
