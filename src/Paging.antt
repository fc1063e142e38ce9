-- ===== src/Paging.antt =====
-- src/mem/paging.c and include/mem/paging.h: page tables, reached through the entry 510 in which the
-- top table points to itself. What the functions print is left out.
pub mod Windows
pub mod Mapped
pub mod NewTable
pub mod Grow
pub mod Path
pub mod Steps
pub mod Others
pub mod Ensure
pub mod MapPage
pub mod MapNew
pub mod Physical
mod Tests
use mathlib.Core.Option
use potatos.Base.{
  ℕ, zero, suc, ◌+◌, ◌-◌, ◌*◌, ◌/◌, ◌%◌, ◌^◌, ◌≤◌, ◌<◌, ◌≡◌, ◌⊎◌, Bool, true, false, not, Option,
  none, some, ◌==◌, if◌then◌else◌, bit_and, bit_or, write8,
}
use potatos.Bitmap.{Bitmap, allocate_physical_page}

-- `PT_PAGE_MASK`, `~0xFFF` widened to 64 bits.
abbrev pub pt_page_mask : ℕ
pt_page_mask = 2 ^ 64 - 4096

abbrev pub pt_present_bit : ℕ
pt_present_bit = 1

abbrev pub pt_rw_bit : ℕ
pt_rw_bit = 2

abbrev pub align_to_page : ℕ → ℕ
align_to_page address = bit_and address pt_page_mask

-- C's test `entry & PT_PRESENT_BIT`.
abbrev pub is_present : ℕ → Bool
is_present entry = not (bit_and entry pt_present_bit == 0)

abbrev pub pml4_entry : ℕ → ℕ
pml4_entry address = bit_and (address / 2 ^ 39) 0x1ff

abbrev pub pdpr_entry : ℕ → ℕ
pdpr_entry address = bit_and (address / 2 ^ 30) 0x1ff

abbrev pub pd_entry : ℕ → ℕ
pd_entry address = bit_and (address / 2 ^ 21) 0x1ff

abbrev pub pt_entry : ℕ → ℕ
pt_entry address = bit_and (address / 2 ^ 12) 0x1ff

-- `ENTRIES_TO_ADDRESS`
abbrev pub entries_to_address : ℕ → ℕ → ℕ → ℕ → ℕ
entries_to_address pml4 pdpr pd pt =
    bit_or (bit_or (bit_or (pml4 * 2 ^ 39) (pdpr * 2 ^ 30)) (pd * 2 ^ 21)) (pt * 2 ^ 12)

abbrev pub sign_extension : ℕ
sign_extension = 0xffff_0000_0000_0000

-- The tables through which a virtual address is reached, as virtual addresses.
abbrev pub pml4_table : ℕ
pml4_table = bit_or sign_extension (entries_to_address 510 510 510 510)

abbrev pub pdpr_table : ℕ → ℕ
pdpr_table address = bit_or sign_extension (entries_to_address 510 510 510 (pml4_entry address))

abbrev pub pd_table : ℕ → ℕ
pd_table address =
    bit_or sign_extension (entries_to_address 510 510 (pml4_entry address) (pdpr_entry address))

abbrev pub pt_table : ℕ → ℕ
pt_table address =
    bit_or sign_extension
      (entries_to_address 510 (pml4_entry address) (pdpr_entry address) (pd_entry address))

-- Physical memory in words of 64 bits, by the address of their first byte.
abbrev pub Words : Type 0
Words = ℕ → ℕ

abbrev pub write_word : Words → ℕ → ℕ → Words
write_word = write8

-- What the entry of a table says to the processor.
abbrev pub frame : ℕ → ℕ
frame entry = entry / 4096 % 2 ^ 40 * 4096

abbrev pub Present : ℕ → Type 0
Present entry = entry % 2 ≡ 1

abbrev pub Small : ℕ → Type 0
Small entry = entry / 128 % 2 ≡ 0

-- The entries on the way of an address through the four levels of tables below `cr3`.
module _ (words : Words) (cr3 address : ℕ) where
  abbrev pub level4 : ℕ
  level4 = words (cr3 + 8 * (address / 2 ^ 39 % 512))

  abbrev pub level3 : ℕ
  level3 = words (frame level4 + 8 * (address / 2 ^ 30 % 512))

  abbrev pub level2 : ℕ
  level2 = words (frame level3 + 8 * (address / 2 ^ 21 % 512))

  abbrev pub level1 : ℕ
  level1 = words (frame level2 + 8 * (address / 2 ^ 12 % 512))

-- Bits 48 to 63 are copies of bit 47.
abbrev pub Canonical : ℕ → Type 0
Canonical address = (address < 2 ^ 47) ⊎ ((2 ^ 64 - 2 ^ 47 ≤ address) × (address < 2 ^ 64))

-- The processor's translation of virtual addresses, with what its manual says of four levels of
-- tables with pages of 4 KiB: a canonical address is translated if the four entries are present, and
-- faults at the first that is not.
pub record Mmu : Type 0 where
  pub translate : Words → ℕ → ℕ → Option ℕ
  pub walk :
      (words : Words) (cr3 address : ℕ)
      → Canonical address
      → Present (level4 words cr3 address)
      → Present (level3 words cr3 address)
      → Small (level3 words cr3 address)
      → Present (level2 words cr3 address)
      → Small (level2 words cr3 address)
      → Present (level1 words cr3 address)
      → translate words cr3 address ≡ some (frame (level1 words cr3 address) + address % 4096)
  pub fault4 :
      (words : Words) (cr3 address : ℕ)
      → Canonical address
      → level4 words cr3 address % 2 ≡ 0
      → translate words cr3 address ≡ none
  pub fault3 :
      (words : Words) (cr3 address : ℕ)
      → Canonical address
      → Present (level4 words cr3 address)
      → level3 words cr3 address % 2 ≡ 0
      → translate words cr3 address ≡ none
  pub fault2 :
      (words : Words) (cr3 address : ℕ)
      → Canonical address
      → Present (level4 words cr3 address)
      → Present (level3 words cr3 address)
      → Small (level3 words cr3 address)
      → level2 words cr3 address % 2 ≡ 0
      → translate words cr3 address ≡ none
  pub fault1 :
      (words : Words) (cr3 address : ℕ)
      → Canonical address
      → Present (level4 words cr3 address)
      → Present (level3 words cr3 address)
      → Small (level3 words cr3 address)
      → Present (level2 words cr3 address)
      → Small (level2 words cr3 address)
      → level1 words cr3 address % 2 ≡ 0
      → translate words cr3 address ≡ none

-- What paging.c works on: physical memory and the bitmap of pages.
pub record Machine : Type 0 where
  pub words : Words
  pub bitmap : Bitmap

-- `cr3` is the physical address of `p4_table`.
module _ (mmu : Mmu) (cr3 : ℕ) where
  -- A read and a write of a `uint64_t` at a virtual address; `none` is a page fault.
  abbrev pub load : ℕ → Machine → Option ℕ
  load address s = Option.map s.words (mmu.translate s.words cr3 address)

  abbrev pub store : ℕ → ℕ → Machine → Option Machine
  store address value s =
      Option.map (λ a. record s { words = write_word s.words a value })
        (mmu.translate s.words cr3 address)

  -- Goes on if entry `index` of the table is present, with `false` else.
  pub require : (table index : ℕ) → Machine → Option Bool → Option Bool
  require table index s next = elim (load (table + 8 * index) s) [
    | none ↦ none
    | some entry ↦ if is_present entry then next else some false
  ]

  pub is_virtual_memory_mapped : ℕ → Machine → Option Bool
  unfolding require
  is_virtual_memory_mapped virtual_address s =
      let address = align_to_page virtual_address in
      require pml4_table (pml4_entry address) s (
        require (pdpr_table address) (pdpr_entry address) s (
          require (pd_table address) (pd_entry address) s
            (require (pt_table address) (pt_entry address) s (some true))))

  -- The loop of `clean_new_table` at entry `i`, with `left` rounds to go.
  pub clean_loop : (left i table : ℕ) → Machine → Option Machine
  clean_loop zero i table s = some s
  clean_loop (suc left) i table s = elim (store (table + 8 * i) 0 s) [
    | none ↦ none
    | some s' ↦ clean_loop left (i + 1) table s'
  ]

  pub clean_new_table : (table : ℕ) → Machine → Option Machine
  unfolding clean_loop
  clean_new_table table s = clean_loop 512 0 table s

  -- The entry at `slot` gets a new table, which is seen at `table` once the entry is written.
  pub add_table : (slot table : ℕ) → Machine → Option Machine
  unfolding clean_new_table
  add_table slot table s =
      let (new_table, bitmap) = allocate_physical_page s.bitmap in
      elim (store slot (bit_or (bit_or new_table pt_rw_bit) pt_present_bit)
        (record s { bitmap = bitmap })) [ none ↦ none | some s' ↦ clean_new_table table s' ]

  -- Each of the three `if`s of `map_page` that make a table.
  pub ensure_table : (slot table : ℕ) → Machine → Option Machine
  unfolding add_table
  ensure_table slot table s = elim (load slot s) [
    | none ↦ none
    | some entry ↦ if is_present entry then some s else add_table slot table s
  ]

  -- The last `if` of `map_page`.
  pub set_page : (slot physical_address flags : ℕ) → Machine → Option Machine
  set_page slot physical_address flags s = elim (load slot s) [
    | none ↦ none
    | some entry ↦ if is_present entry then some s else store slot (bit_or physical_address flags) s
  ]

  infixl 5 ◌>>=◌
  abbrev ◌>>=◌ : Option Machine → (Machine → Option Machine) → Option Machine
  none >>= f = none
  some s >>= f = f s

  pub map_page : (virtual_address physical_address flags : ℕ) → Machine → Option Machine
  unfolding ensure_table set_page
  map_page virtual_address physical_address flags s = do
    let address = align_to_page virtual_address
    s4 ← ensure_table (pml4_table + 8 * pml4_entry address) (pdpr_table address) s
    s3 ← ensure_table (pdpr_table address + 8 * pdpr_entry address) (pd_table address) s4
    s2 ← ensure_table (pd_table address + 8 * pd_entry address) (pt_table address) s3
    set_page (pt_table address + 8 * pt_entry address) (align_to_page physical_address) flags s2

  -- Together with the value that the function returns.
  pub map_if_not_mapped : ℕ → Machine → Option (Machine × Bool)
  unfolding is_virtual_memory_mapped map_page
  map_if_not_mapped address s = elim (is_virtual_memory_mapped address s) [
    | none ↦ none
    | some true ↦ some (s, false)
    | some false ↦
        let (paddr, bitmap) = allocate_physical_page s.bitmap in
        Option.map (λ s'. (s', true))
          (map_page address paddr (bit_or pt_present_bit pt_rw_bit) (record s { bitmap = bitmap }))
  ]
