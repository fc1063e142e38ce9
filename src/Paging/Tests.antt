-- ===== src/Paging/Tests.antt =====
-- Four levels of tables, as the processor walks them, and a machine whose top table maps itself.
use potatos.Bitmap.{set_page_used, is_page_free, allocate_physical_page}
use potatos.Paging.Path.{IsPath}
use potatos.Paging.NewTable.{Supply, Supply-pred}
use potatos.Paging.Others.{IsMapped}
use potatos.Paging.MapPage.{map_page_lem}
use potatos.Paging.MapNew.{map_if_not_mapped_lem}
use potatos.Base.{
  ◌^◌, ◌*◌, ℕ, ◌+◌, ◌/◌, ◌%◌, ◌≡◌, ◌⊎◌, ◌↔◌, Bool, true, false, ◌&&◌, ◌==◌, if◌then◌else◌, Option,
  none, some, inl, arith, refl,
}
use potatos.Paging.{
  map_if_not_mapped, Words, Mmu, Machine, frame, level4, level3, level2, level1,
  is_virtual_memory_mapped, require, map_page, Canonical, Present, Small,
}
use potatos.Paging.Windows.{IsSelfMapped}
use potatos.Paging.Physical.{
  is_physical_memory_mapped, translate_virtual_address, get_physical_address,
}
use potatos.Paging.Physical.Walks.{
  IsDirect, translate_virtual_address_lem, get_physical_address_lem, is_physical_memory_mapped_lem,
}
use potatos.Paging.Mapped.{is_virtual_memory_mapped_lem, map_page-mapped}

abbrev is_set : ℕ → Bool
is_set entry = entry % 2 == 1

abbrev is_small : ℕ → Bool
is_small entry = entry / 128 % 2 == 0

abbrev four_levels : Words → ℕ → ℕ → Option ℕ
four_levels words cr3 address =
    if is_set (level4 words cr3 address)
      && is_set (level3 words cr3 address)
      && is_small (level3 words cr3 address)
      && is_set (level2 words cr3 address)
      && is_small (level2 words cr3 address)
      && is_set (level1 words cr3 address)
    then some (frame (level1 words cr3 address) + address % 4096)
    else none

module _ (words : Words) (cr3 address : ℕ) (canonical : Canonical address) where
  four_levels-walk :
      Present (level4 words cr3 address)
      → Present (level3 words cr3 address)
      → Small (level3 words cr3 address)
      → Present (level2 words cr3 address)
      → Small (level2 words cr3 address)
      → Present (level1 words cr3 address)
      → four_levels words cr3 address ≡ some (frame (level1 words cr3 address) + address % 4096)
  four_levels-walk p4 p3 s3 p2 s2 p1 = ground arith

  four_levels-fault4 : level4 words cr3 address % 2 ≡ 0 → four_levels words cr3 address ≡ none
  four_levels-fault4 p4 = ground arith

  four_levels-fault3 :
      Present (level4 words cr3 address)
      → level3 words cr3 address % 2 ≡ 0
      → four_levels words cr3 address ≡ none
  four_levels-fault3 p4 p3 = ground arith

  four_levels-fault2 :
      Present (level4 words cr3 address)
      → Present (level3 words cr3 address)
      → Small (level3 words cr3 address)
      → level2 words cr3 address % 2 ≡ 0
      → four_levels words cr3 address ≡ none
  four_levels-fault2 p4 p3 s3 p2 = ground arith

  four_levels-fault1 :
      Present (level4 words cr3 address)
      → Present (level3 words cr3 address)
      → Small (level3 words cr3 address)
      → Present (level2 words cr3 address)
      → Small (level2 words cr3 address)
      → level1 words cr3 address % 2 ≡ 0
      → four_levels words cr3 address ≡ none
  four_levels-fault1 p4 p3 s3 p2 s2 p1 = ground arith

abbrev processor : Mmu
processor = record {
  translate = four_levels;
  walk = four_levels-walk;
  fault4 = four_levels-fault4;
  fault3 = four_levels-fault3;
  fault2 = four_levels-fault2;
  fault1 = four_levels-fault1;
}

-- The top table at 4096, then one table of each level, and the page at 20480 mapped at 0.
abbrev tables : Words
tables address =
    if address == 4096
    then 8195
    else if address == 8176
    then 4099
    else if address == 8192
    then 12291
    else if address == 12288
    then 16387
    else if address == 16384
    then 20483
    else 0

abbrev machine : Machine
machine = record { words = tables; bitmap = record { bytes = λ address. 255; total_pages = 8 } }

tables-IsSelfMapped : IsSelfMapped tables 4096
tables-IsSelfMapped = record { present = refl; small = refl; self = refl }

is_virtual_memory_mapped_lem_example :
    ((is_virtual_memory_mapped processor 4096 5 machine ≡ some true)
      × (processor.translate tables 4096 5 ≡ some (frame (level1 tables 4096 5) + 5)))
    ⊎ ((is_virtual_memory_mapped processor 4096 5 machine ≡ some false)
        × (processor.translate tables 4096 5 ≡ none))
is_virtual_memory_mapped_lem_example =
    is_virtual_memory_mapped_lem processor 4096 machine 5 tables-IsSelfMapped (inl (omega arith))
      (record { small4 = λ p4. refl; small3 = λ p4 p3. refl; small2 = λ p4 p3 p2. refl })

mapped : is_virtual_memory_mapped processor 4096 5 machine ≡ some true
unfolding is_virtual_memory_mapped require
mapped = refl

unmapped : is_virtual_memory_mapped processor 4096 4096 machine ≡ some false
unfolding is_virtual_memory_mapped require
unmapped = refl

map_page-mapped_example : map_page processor 4096 5 0 0 machine ≡ some machine
map_page-mapped_example =
    map_page-mapped processor 4096 machine 5 tables-IsSelfMapped (inl (omega arith))
      (record { small4 = λ p4. refl; small3 = λ p4 p3. refl; small2 = λ p4 p3 p2. refl }) 20485 0 0
      refl

-- The same tables, with the pages from 6 on free.
abbrev roomy : Machine
roomy = record {
  words = tables;
  bitmap = record { bytes = λ row. if row == 0 then 63 else 0; total_pages = 16 };
}

-- An address whose entry in the top table is empty.
abbrev far : ℕ
far = 2 ^ 39 + 5

roomy-IsPath : IsPath 4096 far roomy
unfolding is_page_free
roomy-IsPath = record {
  self = tables-IsSelfMapped;
  bitmap = record { rows = λ row. ground arith; small = omega arith };
  aligned = refl;
  other = omega arith;
  used = refl;
  way = record {
    at4 = λ p4. absurd (omega (arith, p4));
    at3 = λ p4 p3. absurd (omega (arith, p4));
    at2 = λ p4 p3 p2. absurd (omega (arith, p4));
    unmapped = λ p4 p3 p2. absurd (omega (arith, p4));
  };
}

roomy-Supply : Supply 4 roomy.bitmap
unfolding is_page_free allocate_physical_page set_page_used
roomy-Supply = (
  (6, omega arith, refl),
  ((7, omega arith, refl), ((8, omega arith, refl), ((9, omega arith, refl), tt))),
)

map_page_lem_example :
    (s' : Machine) × (map_page processor 4096 far 36864 3 roomy ≡ some s')
    × (processor.translate s'.words 4096 far ≡ some (36864 + 5))
    × ((w : ℕ)
        → Canonical w
        → IsMapped 4096 w roomy
        → processor.translate s'.words 4096 w ≡ processor.translate tables 4096 w)
map_page_lem_example =
    map_page_lem processor 4096 far 36864 3 roomy (inl (omega arith)) (omega arith) (omega arith)
      refl roomy-IsPath (Supply-pred 3 roomy.bitmap roomy-Supply)

map_if_not_mapped_lem_example :
    (s' : Machine) × (map_if_not_mapped processor 4096 far roomy ≡ some (s', true))
    × (page : ℕ) × (is_page_free roomy.bitmap page ≡ true)
    × (is_page_free s'.bitmap page ≡ false)
    × (processor.translate s'.words 4096 far ≡ some (page * 4096 + 5))
    × ((w : ℕ)
        → Canonical w
        → IsMapped 4096 w roomy
        → processor.translate s'.words 4096 w ≡ processor.translate tables 4096 w)
map_if_not_mapped_lem_example =
    map_if_not_mapped_lem processor 4096 far roomy (inl (omega arith)) roomy-IsPath roomy-Supply

-- The same tables with pages that are seen at their physical addresses, and the top table also at
-- 0x109000.
abbrev low_tables : Words
low_tables address =
    if address == 16392
    then 4099
    else if address == 16400
    then 8195
    else if address == 16408
    then 12291
    else if address == 16416
    then 16387
    else if address == 18504
    then 4099
    else tables address

abbrev low_machine : Machine
low_machine = record machine { words = low_tables }

low_tables-IsDirect : IsDirect processor 4096 low_tables 0x109000 5
low_tables-IsDirect = record {
  see4 = refl;
  plain4 = omega arith;
  see3 = λ p4. refl;
  plain3 = λ p4. omega arith;
  see2 = λ p4 p3. refl;
  plain2 = λ p4 p3. omega arith;
  see1 = λ p4 p3 p2. refl;
  plain1 = λ p4 p3 p2. omega arith;
}

translate_virtual_address_lem_example :
    translate_virtual_address processor 4096 low_machine 5 ≡ some 20485
translate_virtual_address_lem_example =
    translate_virtual_address_lem processor 4096 low_machine 5 (inl (omega arith))
      (record { small4 = λ p4. refl; small3 = λ p4 p3. refl; small2 = λ p4 p3 p2. refl }) 20485
      low_tables-IsDirect refl

get_physical_address_lem_example :
    get_physical_address processor 4096 low_machine 0x109000 5 ≡ some 20485
get_physical_address_lem_example =
    get_physical_address_lem processor 4096 low_machine 5 (inl (omega arith))
      (record { small4 = λ p4. refl; small3 = λ p4 p3. refl; small2 = λ p4 p3 p2. refl }) 20485
      0x109000 low_tables-IsDirect (λ e. absurd (omega arith)) (λ e. absurd (omega arith))
      (λ e. absurd (omega arith)) refl

is_physical_memory_mapped_lem_example :
    (b : Bool) × (is_physical_memory_mapped processor 4096 low_machine 5 0x109000 ≡ some b)
    × ((b ≡ true) ↔ (processor.translate low_tables 4096 5 ≡ some 5))
is_physical_memory_mapped_lem_example =
    is_physical_memory_mapped_lem processor 4096 low_machine 5 (inl (omega arith))
      (record { small4 = λ p4. refl; small3 = λ p4 p3. refl; small2 = λ p4 p3 p2. refl }) 0x109000
      low_tables-IsDirect
