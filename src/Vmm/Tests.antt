-- ===== src/Vmm/Tests.antt =====
-- Tests of the regions, with pages that count the calls.
use potatos.Base.{
  ◌+◌, ◌^◌, ◌<◌, ◌*◌, ◌+◌, ◌<◌, ◌^◌, ℕ, ◌≡◌, refl, ◌==◌, if◌then◌else◌, arith, some, [], ◌∷◌, List,
}
use potatos.Vmm.{
  VmmRegion, Vmm, PageOps, align_to_nearest_page, vmm_allocate, vmm_free, sizeof_region, init_vmm,
}
use potatos.Vmm.Places.{Place, IsListed, IsOrdered}
use potatos.Vmm.Allocate.{IsAllocated, full_size, vmm_allocate_lem}
use potatos.Vmm.Start.{new_pages, first_region, heap_region, init_vmm_lem}
use potatos.Vmm.Free.{vmm_free_lem}

abbrev counting : PageOps ℕ
counting = record {
  allocate_physical_page = λ c. (c * 4096, c + 1);
  map_page = λ v p f c. c;
  get_physical_address = λ v c. v;
  set_page_free = λ p c. c + 100;
  set_page_used = λ p c. c;
}

-- Regions at 4096, 8192 and 20480, with a gap of two pages between the last two.
abbrev nodes : ℕ → VmmRegion
nodes a =
    if a == 4096
    then record { next = 8192; size = 4096 }
    else if a == 8192
    then record { next = 20480; size = 4096 }
    else record { next = 0; size = 8192 }

abbrev start : Vmm ℕ
start = record { regions = nodes; vm_root = 4096; pages = 1 }

abbrev others : List Place
others = (8192, 4096) ∷ (20480, 8192) ∷ []

start-IsListed : IsListed nodes 4096 ((4096, 4096) ∷ others)
start-IsListed =
    (refl, omega arith, refl, (refl, omega arith, refl, (refl, omega arith, refl, refl)))

start-IsOrdered : IsOrdered 28672 4096 ((4096, 4096) ∷ others)
start-IsOrdered =
    (omega arith, omega arith, (omega arith, omega arith, (omega arith, omega arith, omega arith)))

room : 28672 + full_size 5000 + 256 < 2 ^ 64
unfolding align_to_nearest_page
room = omega arith

vmm_allocate_lem_example :
    (returned : ℕ) × (s' : Vmm ℕ) × (vmm_allocate counting 4 5000 start ≡ some (returned, s'))
    × IsAllocated 5000 4096 4096 28672 others start returned s'
vmm_allocate_lem_example =
    vmm_allocate_lem counting 3 5000 4096 4096 28672 others start (omega arith) (omega arith) room
      start-IsListed start-IsOrdered

vmm_free_lem_example :
    (s' : Vmm ℕ) × (vmm_free counting 5 (8192 + sizeof_region) start ≡ some s')
    × IsListed s'.regions s'.vm_root ((4096, 4096) ∷ (20480, 8192) ∷ [])
    × (s'.pages ≡ 101)
vmm_free_lem_example =
    vmm_free_lem counting 5 28672 4096 4096 4096 8192 4096 [] ((20480, 8192) ∷ []) start
      (omega arith) (omega arith) (omega arith) start-IsListed start-IsOrdered

-- Memory that reads as 0.
abbrev empty : Vmm ℕ
empty = record { regions = λ a. record { next = 0; size = 0 }; vm_root = 0; pages = 1 }

-- An address of the kernel's own image, as the linker places it: the regions start in the low half.
abbrev area : ℕ
area = 0xffff_ffff_8020_0000

wraps_around : first_region area ≡ 0x1_8020_0000
wraps_around = refl

init_vmm_lem_example :
    (s' : Vmm ℕ) × (init_vmm counting 2 area empty ≡ some (first_region area + 4096 + 16, s'))
    × IsListed s'.regions s'.vm_root
        ((first_region area, 4096) ∷ (first_region area + 4096, heap_region) ∷ [])
    × (s'.pages ≡ new_pages counting 1025 (first_region area + 4096) 2)
init_vmm_lem_example =
    init_vmm_lem counting 0 area empty (omega arith) (λ e. absurd (omega (arith, e))) refl
