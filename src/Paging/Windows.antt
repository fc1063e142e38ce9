-- ===== src/Paging/Windows.antt =====
-- src/mem/paging.c: the virtual addresses at which `map_page` and `is_virtual_memory_mapped` see the
-- tables lead through the entry 510 of the top table to the tables of the address in question.
use potatos.Base.{
  ℕ, ◌+◌, ◌*◌, ◌/◌, ◌%◌, ◌^◌, ◌<◌, ◌≡◌, some, inr, arith, bit_or, bit_and-ones, bit_or-fields,
  bit_and-page_mask,
}
use potatos.Paging.{
  Words, Mmu, align_to_page, pml4_entry, pdpr_entry, pd_entry, pt_entry, entries_to_address,
  sign_extension, pml4_table, pdpr_table, pd_table, pt_table, frame, Canonical, Present, Small,
  level4, level3, level2,
}

-- The address of the table that the entries `a b c d` lead to.
abbrev pub window : ℕ → ℕ → ℕ → ℕ → ℕ
window a b c d = 0xffff_0000_0000_0000 + a * 2 ^ 39 + b * 2 ^ 30 + c * 2 ^ 21 + d * 2 ^ 12

pub window_lem :
    (a b c d : ℕ)
    → a < 512
    → b < 512
    → c < 512
    → d < 512
    → bit_or sign_extension (entries_to_address a b c d) ≡ window a b c d
window_lem a b c d ha hb hc hd = ground (
  arith,
  bit_or-fields 39 a (b * 2 ^ 30),
  bit_or-fields 30 (a * 512 + b) (c * 2 ^ 21),
  bit_or-fields 21 ((a * 512 + b) * 512 + c) (d * 2 ^ 12),
  bit_or-fields 48 65535 (a * 2 ^ 39 + b * 2 ^ 30 + c * 2 ^ 21 + d * 2 ^ 12),
)

pub entry_lem :
    (v : ℕ)
    → (pml4_entry v ≡ v / 2 ^ 39 % 512)
      × (pdpr_entry v ≡ v / 2 ^ 30 % 512)
      × (pd_entry v ≡ v / 2 ^ 21 % 512)
      × (pt_entry v ≡ v / 2 ^ 12 % 512)
entry_lem v = (
  bit_and-ones 9 (v / 2 ^ 39),
  bit_and-ones 9 (v / 2 ^ 30),
  bit_and-ones 9 (v / 2 ^ 21),
  bit_and-ones 9 (v / 2 ^ 12),
)

-- The indices of an address in a window, and its place in the page.
pub index_window :
    (a b c d e : ℕ)
    → a < 512
    → b < 512
    → c < 512
    → d < 512
    → e < 512
    → ((window a b c d + 8 * e) / 2 ^ 39 % 512 ≡ a)
      × ((window a b c d + 8 * e) / 2 ^ 30 % 512 ≡ b)
      × ((window a b c d + 8 * e) / 2 ^ 21 % 512 ≡ c)
      × ((window a b c d + 8 * e) / 2 ^ 12 % 512 ≡ d)
      × ((window a b c d + 8 * e) % 4096 ≡ 8 * e)
index_window a b c d e ha hb hc hd he = omega arith

-- The translation of an address from its indices.
walk_at :
    (mmu : Mmu) (words : Words) (cr3 x a b c d o : ℕ)
    → Canonical x
    → x / 2 ^ 39 % 512 ≡ a
    → x / 2 ^ 30 % 512 ≡ b
    → x / 2 ^ 21 % 512 ≡ c
    → x / 2 ^ 12 % 512 ≡ d
    → x % 4096 ≡ o
    → let l4 = words (cr3 + 8 * a) in
      let l3 = words (frame l4 + 8 * b) in
      let l2 = words (frame l3 + 8 * c) in
      let l1 = words (frame l2 + 8 * d) in
      Present l4
      → Present l3
      → Small l3
      → Present l2
      → Small l2
      → Present l1
      → mmu.translate words cr3 x ≡ some (frame l1 + o)
walk_at mmu words cr3 x a b c d o canonical ea eb ec ed eo =
    rw (← ea, ← eb, ← ec, ← ed, ← eo) (mmu.walk words cr3 x canonical)

-- Entry 510 of the top table leads to the top table, as src/boot/boot.asm sets it up.
pub record IsSelfMapped (words : Words) (cr3 : ℕ) : Type 0 where
  pub present : Present (words (cr3 + 8 * 510))
  pub small : Small (words (cr3 + 8 * 510))
  pub self : frame (words (cr3 + 8 * 510)) ≡ cr3

module _ (mmu : Mmu) (words : Words) (cr3 : ℕ) (m : IsSelfMapped words cr3) where
  pub see_pml4 :
      (e : ℕ)
      → e < 512
      → mmu.translate words cr3 (window 510 510 510 510 + 8 * e) ≡ some (cr3 + 8 * e)
  see_pml4 e he =
      let i =
        index_window 510 510 510 510 e (omega arith) (omega arith) (omega arith) (omega arith) he in
      let walk =
        walk_at mmu words cr3 (window 510 510 510 510 + 8 * e) 510 510 510 510 (8 * e)
          (inr (omega arith, omega arith)) i.0 i.1 i.2 i.3 i.4 in
      ground (arith, m.present, m.small, m.self, walk)

  pub see_pdpr :
      (a e : ℕ)
      → a < 512
      → e < 512
      → let l4 = words (cr3 + 8 * a) in
        Present l4
        → mmu.translate words cr3 (window 510 510 510 a + 8 * e) ≡ some (frame l4 + 8 * e)
  see_pdpr a e ha he p4 =
      let i = index_window 510 510 510 a e (omega arith) (omega arith) (omega arith) ha he in
      let walk =
        walk_at mmu words cr3 (window 510 510 510 a + 8 * e) 510 510 510 a (8 * e)
          (inr (omega arith, omega arith)) i.0 i.1 i.2 i.3 i.4 in
      ground (arith, m.present, m.small, m.self, walk)

  pub see_pd :
      (a b e : ℕ)
      → a < 512
      → b < 512
      → e < 512
      → let l4 = words (cr3 + 8 * a) in
        let l3 = words (frame l4 + 8 * b) in
        Present l4
        → Small l4
        → Present l3
        → mmu.translate words cr3 (window 510 510 a b + 8 * e) ≡ some (frame l3 + 8 * e)
  see_pd a b e ha hb he p4 s4 p3 =
      let i = index_window 510 510 a b e (omega arith) (omega arith) ha hb he in
      let walk =
        walk_at mmu words cr3 (window 510 510 a b + 8 * e) 510 510 a b (8 * e)
          (inr (omega arith, omega arith)) i.0 i.1 i.2 i.3 i.4 in
      ground (arith, m.present, m.small, m.self, walk)

  pub see_pt :
      (a b c e : ℕ)
      → a < 512
      → b < 512
      → c < 512
      → e < 512
      → let l4 = words (cr3 + 8 * a) in
        let l3 = words (frame l4 + 8 * b) in
        let l2 = words (frame l3 + 8 * c) in
        Present l4
        → Small l4
        → Present l3
        → Small l3
        → Present l2
        → mmu.translate words cr3 (window 510 a b c + 8 * e) ≡ some (frame l2 + 8 * e)
  see_pt a b c e ha hb hc he p4 s4 p3 s3 p2 =
      let i = index_window 510 a b c e (omega arith) ha hb hc he in
      let walk =
        walk_at mmu words cr3 (window 510 a b c + 8 * e) 510 a b c (8 * e)
          (inr (omega arith, omega arith)) i.0 i.1 i.2 i.3 i.4 in
      ground (arith, m.present, m.small, m.self, walk)

-- The windows and indices that paging.c computes from an address.
pub record Slots (v : ℕ) : Type 0 where
  pub index4 : pml4_entry (align_to_page v) ≡ v / 2 ^ 39 % 512
  pub index3 : pdpr_entry (align_to_page v) ≡ v / 2 ^ 30 % 512
  pub index2 : pd_entry (align_to_page v) ≡ v / 2 ^ 21 % 512
  pub index1 : pt_entry (align_to_page v) ≡ v / 2 ^ 12 % 512
  pub table4 : pml4_table ≡ window 510 510 510 510
  pub table3 : pdpr_table (align_to_page v) ≡ window 510 510 510 (v / 2 ^ 39 % 512)
  pub table2 : pd_table (align_to_page v) ≡ window 510 510 (v / 2 ^ 39 % 512) (v / 2 ^ 30 % 512)
  pub table1 :
      pt_table (align_to_page v)
      ≡ window 510 (v / 2 ^ 39 % 512) (v / 2 ^ 30 % 512) (v / 2 ^ 21 % 512)

pub slots : (v : ℕ) → v < 2 ^ 64 → Slots v
slots v h =
    let aligned = bit_and-page_mask v h in
    let e = entry_lem (align_to_page v) in
    let i4 : pml4_entry (align_to_page v) ≡ v / 2 ^ 39 % 512 = omega (arith, aligned, e.0) in
    let i3 : pdpr_entry (align_to_page v) ≡ v / 2 ^ 30 % 512 = omega (arith, aligned, e.1) in
    let i2 : pd_entry (align_to_page v) ≡ v / 2 ^ 21 % 512 = omega (arith, aligned, e.2) in
    let i1 : pt_entry (align_to_page v) ≡ v / 2 ^ 12 % 512 = omega (arith, aligned, e.3) in
    record {
      index4 = i4;
      index3 = i3;
      index2 = i2;
      index1 = i1;
      table4 = window_lem 510 510 510 510 (omega arith) (omega arith) (omega arith) (omega arith);
      table3 = rw i4 (
          window_lem 510 510 510 (v / 2 ^ 39 % 512) (omega arith) (omega arith) (omega arith)
            (omega arith));
      table2 =
          rw (i4, i3)
            (window_lem 510 510 (v / 2 ^ 39 % 512) (v / 2 ^ 30 % 512) (omega arith) (omega arith)
              (omega arith) (omega arith));
      table1 =
          rw (i4, i3, i2)
            (window_lem 510 (v / 2 ^ 39 % 512) (v / 2 ^ 30 % 512) (v / 2 ^ 21 % 512) (omega arith)
              (omega arith) (omega arith) (omega arith));
    }

-- What the code sees at the tables of an address `v`, in the entries' own order.
module _ (mmu : Mmu) (words : Words) (cr3 v : ℕ) (m : IsSelfMapped words cr3)
    (low : v < 2 ^ 64) where
  pub slot4 :
      mmu.translate words cr3 (pml4_table + 8 * pml4_entry (align_to_page v))
      ≡ some (cr3 + 8 * (v / 2 ^ 39 % 512))
  slot4 =
      rw ((slots v low).table4, (slots v low).index4)
        (see_pml4 mmu words cr3 m (v / 2 ^ 39 % 512) (omega arith))

  pub table3_at :
      (e : ℕ)
      → e < 512
      → Present (level4 words cr3 v)
      → mmu.translate words cr3 (pdpr_table (align_to_page v) + 8 * e)
        ≡ some (frame (level4 words cr3 v) + 8 * e)
  table3_at e he p4 =
      rw (slots v low).table3 (see_pdpr mmu words cr3 m (v / 2 ^ 39 % 512) e (omega arith) he p4)

  pub table2_at :
      (e : ℕ)
      → e < 512
      → Present (level4 words cr3 v)
      → Small (level4 words cr3 v)
      → Present (level3 words cr3 v)
      → mmu.translate words cr3 (pd_table (align_to_page v) + 8 * e)
        ≡ some (frame (level3 words cr3 v) + 8 * e)
  table2_at e he p4 s4 p3 = rw (slots v low).table2 (
      see_pd mmu words cr3 m (v / 2 ^ 39 % 512) (v / 2 ^ 30 % 512) e (omega arith) (omega arith) he
        p4 s4 p3)

  pub table1_at :
      (e : ℕ)
      → e < 512
      → Present (level4 words cr3 v)
      → Small (level4 words cr3 v)
      → Present (level3 words cr3 v)
      → Small (level3 words cr3 v)
      → Present (level2 words cr3 v)
      → mmu.translate words cr3 (pt_table (align_to_page v) + 8 * e)
        ≡ some (frame (level2 words cr3 v) + 8 * e)
  table1_at e he p4 s4 p3 s3 p2 = rw (slots v low).table1 (
      see_pt mmu words cr3 m (v / 2 ^ 39 % 512) (v / 2 ^ 30 % 512) (v / 2 ^ 21 % 512) e
        (omega arith) (omega arith) (omega arith) he p4 s4 p3 s3 p2)

  pub slot3 :
      Present (level4 words cr3 v)
      → mmu.translate words cr3 (pdpr_table (align_to_page v) + 8 * pdpr_entry (align_to_page v))
        ≡ some (frame (level4 words cr3 v) + 8 * (v / 2 ^ 30 % 512))
  slot3 p4 = rw (slots v low).index3 (table3_at (v / 2 ^ 30 % 512) (omega arith) p4)

  pub slot2 :
      Present (level4 words cr3 v)
      → Small (level4 words cr3 v)
      → Present (level3 words cr3 v)
      → mmu.translate words cr3 (pd_table (align_to_page v) + 8 * pd_entry (align_to_page v))
        ≡ some (frame (level3 words cr3 v) + 8 * (v / 2 ^ 21 % 512))
  slot2 p4 s4 p3 = rw (slots v low).index2 (table2_at (v / 2 ^ 21 % 512) (omega arith) p4 s4 p3)

  pub slot1 :
      Present (level4 words cr3 v)
      → Small (level4 words cr3 v)
      → Present (level3 words cr3 v)
      → Small (level3 words cr3 v)
      → Present (level2 words cr3 v)
      → mmu.translate words cr3 (pt_table (align_to_page v) + 8 * pt_entry (align_to_page v))
        ≡ some (frame (level2 words cr3 v) + 8 * (v / 2 ^ 12 % 512))
  slot1 p4 s4 p3 s3 p2 =
      rw (slots v low).index1 (table1_at (v / 2 ^ 12 % 512) (omega arith) p4 s4 p3 s3 p2)
