-- ===== src/Paging/Physical.antt =====
-- The functions of src/mem/paging.c that walk the tables themselves, at the tables' physical addresses.
-- `none` is a page fault. What they print is left out.
pub mod Walks
use mathlib.Core.Option
use potatos.Base.{
  ℕ, ◌+◌, ◌-◌, ◌*◌, ◌^◌, Bool, true, false, Option, none, some, ◌==◌, if◌then◌else◌, bit_and,
  bit_or, u64,
}
use potatos.Paging.{
  Mmu, Machine, load, is_present, pt_page_mask, pml4_entry, pdpr_entry, pd_entry, pt_entry,
}

-- The pointer to the next table, or the address of a page, in an entry.
abbrev pub pointer : ℕ → ℕ
pointer entry = bit_and entry pt_page_mask

-- `phys_to_virt`
abbrev pub phys_to_virt : ℕ → ℕ
phys_to_virt phys_addr = u64 (phys_addr + 0xffff_ffff_8000_0000)

module _ (mmu : Mmu) (cr3 : ℕ) (s : Machine) where
  -- Goes on with the entry `index` of the table if it is present, and else returns `missing`.
  pub follow {ℓ} : {A : Type ℓ} → (table index : ℕ) → (missing : A) → (ℕ → Option A) → Option A
  follow table index missing next = elim (load mmu cr3 (table + 8 * index) s) [
    | none ↦ none
    | some entry ↦ if is_present entry then next (pointer entry) else some missing
  ]

  pub is_physical_memory_mapped : (physical_address pml4_table : ℕ) → Option Bool
  unfolding follow
  is_physical_memory_mapped physical_address pml4_table =
      follow pml4_table (pml4_entry physical_address) false (λ pdpt_table.
        follow pdpt_table (pdpr_entry physical_address) false (λ pd_table.
          follow pd_table (pd_entry physical_address) false (λ pt_table.
            follow pt_table (pt_entry physical_address) false
              (λ page. some (page == pointer physical_address)))))

  -- The page in the last entry, whether it is present or not, with the place in the page.
  pub page_address : (pt_table virtual_address : ℕ) → Option ℕ
  page_address pt_table virtual_address =
      Option.map (λ entry. bit_or (pointer entry) (bit_and virtual_address 0xfff))
        (load mmu cr3 (pt_table + 8 * pt_entry virtual_address) s)

  pub translate_virtual_address : (virtual_address : ℕ) → Option ℕ
  unfolding follow page_address
  translate_virtual_address virtual_address =
      follow 0x109000 (pml4_entry virtual_address) 0 (λ pdpt_table.
        follow pdpt_table (pdpr_entry virtual_address) 0 (λ pd_table.
          follow pd_table (pd_entry virtual_address) 0
            (λ pt_table. page_address pt_table virtual_address)))

  -- 0 is `NULL`.
  pub get_next_table_entry : (current_table index : ℕ) → Option ℕ
  unfolding follow
  get_next_table_entry current_table index =
      if current_table == 0 then some 0 else follow current_table index 0 (λ next. some next)

  infixl 5 ◌>>=◌
  abbrev ◌>>=◌ : Option ℕ → (ℕ → Option ℕ) → Option ℕ
  none >>= f = none
  some table >>= f = f table

  pub get_physical_address : (p4_table virtual_address : ℕ) → Option ℕ
  unfolding get_next_table_entry page_address
  get_physical_address p4_table virtual_address = do
    pdpt_table ← get_next_table_entry p4_table (pml4_entry virtual_address)
    pd_table ← get_next_table_entry pdpt_table (pdpr_entry virtual_address)
    pt_table ← get_next_table_entry pd_table (pd_entry virtual_address)
    page_address pt_table virtual_address
