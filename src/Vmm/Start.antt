-- ===== src/Vmm/Start.antt =====
-- `init_vmm` of src/mem/vmm.c, up to the region of the kernel heap.
use potatos.Base.{
  ℕ, zero, suc, ◌-◌, ◌+◌, ◌*◌, ◌/◌, ◌%◌, ◌^◌, ◌≤◌, ◌<◌, ◌≡◌, ◌≢◌, refl, ◌∙◌, ap, arith, some, false,
  [], ◌∷◌, page_size, u64, bit_or,
}
use mathlib.Core.Path.{subst}
use potatos.Vmm.{
  Vmm, PageOps, align_to_nearest_page, one_gigabyte, set_size, vmm_allocate, init_vmm, walk,
  area_loop, vmm_allocate_area, linked_nodes,
}
use potatos.Vmm.Places.{IsListed}
use potatos.Vmm.Links.{linked_nodes-IsListed}
use potatos.Vmm.Walk.{IsStop}
use potatos.Vmm.Allocate.{full_size, vmm_allocate_step, full_size_lem}

-- Where the regions start: 8 GiB behind the area, the sum of two `uint64_t`, at the next page.
abbrev pub first_region : ℕ → ℕ
first_region vmm_area = ((vmm_area + 8 * one_gigabyte) % 2 ^ 64 + 4095) / 4096 * 4096

first_region_lem :
    (vmm_area : ℕ)
    → (vmm_area + 8 * one_gigabyte) % 2 ^ 64 + 4096 ≤ 2 ^ 64
    → align_to_nearest_page (u64 (vmm_area + 8 * one_gigabyte)) ≡ first_region vmm_area
unfolding align_to_nearest_page
first_region_lem vmm_area fits = omega arith

-- The size of the heap's region.
abbrev pub heap_region : ℕ
heap_region = 4 * 1024 * 1024 + 4096

heap_region_lem : full_size (1024 * 1024 * 4) ≡ heap_region
unfolding align_to_nearest_page
heap_region_lem = refl

heap_pages : (full_size (1024 * 1024 * 4) + page_size - 1) / page_size ≡ 1025
unfolding align_to_nearest_page
heap_pages = refl

-- `n` new pages, mapped one behind the other from `address` on, present and writable.
pub new_pages : {P : Type 0} → PageOps P → (n address : ℕ) → P → P
new_pages ops zero address pages = pages
new_pages ops (suc n) address pages =
    let (physical_address, rest) = ops.allocate_physical_page pages in
    new_pages ops n (address + 4096) (ops.map_page address physical_address 3 rest)

area_loop-new_pages :
    {P : Type 0} (ops : PageOps P) (n i a address : ℕ) (pages : P)
    → a + i ≡ address
    → address + n * 4096 ≤ 2 ^ 64
    → area_loop ops n i a pages ≡ new_pages ops n address pages
unfolding area_loop new_pages
area_loop-new_pages ops zero i a address pages at fits = refl
area_loop-new_pages ops (suc n) i a address pages at fits =
    let here : u64 (a + i) ≡ address = omega arith in
    let (physical_address, rest) = ops.allocate_physical_page pages in
    ap (λ (v : ℕ). area_loop ops n (i + page_size) a (ops.map_page v physical_address 3 rest)) here
    ∙ area_loop-new_pages ops n (i + page_size) a (address + 4096) _ (omega arith) (omega arith)

area-new_pages :
    {P : Type 0} (ops : PageOps P) (n size a : ℕ) (pages : P)
    → (size + page_size - 1) / page_size ≡ n
    → a + n * 4096 ≤ 2 ^ 64
    → vmm_allocate_area ops a size pages ≡ new_pages ops n a pages
unfolding vmm_allocate_area
area-new_pages ops n size a pages count fits =
    ap (λ (k : ℕ). area_loop ops k 0 a pages) count
    ∙ area_loop-new_pages ops n 0 a a pages (omega arith) fits

-- `vmm_allocate` with one region.
second_region :
    {P : Type 0} (ops : PageOps P) (fuel size a : ℕ) (t : Vmm P)
    → size + 16 + 4096 ≤ 2 ^ 64
    → a + 8192 < 2 ^ 64
    → t.vm_root ≡ a
    → IsListed t.regions a ((a, 4096) ∷ [])
    → (t' : Vmm P) × (vmm_allocate ops (suc (suc fuel)) size t ≡ some (a + 4096 + 16, t'))
      × (t'.vm_root ≡ a)
      × (t'.pages ≡ vmm_allocate_area ops (a + 4096) (full_size size) t.pages)
      × IsListed t'.regions a ((a, 4096) ∷ (a + 4096, full_size size) ∷ [])
unfolding walk
second_region {P} ops fuel size a t fine low root listed =
    let stop : IsStop (full_size size) a 4096 [] a false = record {
      prev_size = 4096;
      before = [];
      after = [];
      whole = refl;
      placed = refl;
      at_end = λ e. refl;
    } in
    let found : walk (suc fuel) (full_size size) (t.regions t.vm_root).next t.vm_root t.regions
        ≡ some (a, false) =
      rw (root, listed.3) refl in
    let pos = (full_size_lem size fine).0 in
    let step =
      vmm_allocate_step ops (suc fuel) size a false t (rw root listed.1)
        (rw (root, listed.2) (omega arith)) found in
    let current : u64 (a + (t.regions a).size) ≡ a + 4096 = omega (arith, listed.2) in
    let t' : Vmm P = record t {
      regions = linked_nodes false (u64 (a + (t.regions a).size)) (full_size size) a t.regions;
      pages = vmm_allocate_area ops (u64 (a + (t.regions a).size)) (full_size size) t.pages;
    } in
    (
      t',
      step ∙ ap (λ (c : ℕ). some (c, t')) (omega (arith, listed.2)),
      root,
      ap (λ (b : ℕ). vmm_allocate_area ops b (full_size size) t.pages) current,
      rw current (
          linked_nodes-IsListed (full_size size) a 4096 (a + 4096) a false [] t.regions stop pos
            listed (omega arith, omega arith, omega arith)),
    )

-- `init_vmm` returns, with two rounds, on memory that reads as 0 where the first region is put, if the
-- first region is not at address 0 and 8 MiB fit between it and the end of the address space; the sum
-- that gives its address may wrap around. The list has the first region, a page, and behind it the
-- region of the heap, 4 MiB and a page, and the heap's address is 16 bytes behind its start. A page is
-- taken, marked used and mapped at the first region, and then 1025 pages are taken and mapped one behind
-- the other at the heap's, all of them present and writable.
pub init_vmm_lem :
    {P : Type 0} (ops : PageOps P) (fuel vmm_area : ℕ) (s : Vmm P)
    → (vmm_area + 8 * one_gigabyte) % 2 ^ 64 + 2 ^ 23 < 2 ^ 64
    → first_region vmm_area ≢ 0
    → (s.regions (first_region vmm_area)).next ≡ 0
    → (s' : Vmm P) × (init_vmm ops (suc (suc fuel)) vmm_area s
        ≡ some (first_region vmm_area + 4096 + 16, s'))
      × IsListed s'.regions s'.vm_root
          ((first_region vmm_area, 4096) ∷ (first_region vmm_area + 4096, heap_region) ∷ [])
      × (let (physical_address, rest) = ops.allocate_physical_page s.pages in
          let first =
            ops.map_page
              (first_region vmm_area)
              physical_address
              3
              (ops.set_page_used (physical_address / 4096) rest) in
          s'.pages ≡ new_pages ops 1025 (first_region vmm_area + 4096) first)
unfolding init_vmm
init_vmm_lem {P} ops fuel vmm_area s fits nonzero clear =
    let a = first_region vmm_area in
    let place = first_region_lem vmm_area (omega arith) in
    let (physical_address, rest) = ops.allocate_physical_page s.pages in
    let state : ℕ → Vmm P = λ b. record {
      regions = set_size b page_size s.regions;
      vm_root = b;
      pages =
          ops.map_page b physical_address (bit_or 1 2)
            (ops.set_page_used (physical_address / page_size) rest);
    } in
    let t : Vmm P = state a in
    let listed : IsListed t.regions a ((a, 4096) ∷ []) =
      (refl, omega arith, ground arith, ground (arith, clear)) in
    let (t', run, root, mapped, after) =
      second_region ops fuel (1024 * 1024 * 4) a t (omega arith) (omega arith) refl listed in
    (
      t',
      ap (λ (b : ℕ). vmm_allocate ops (suc (suc fuel)) (1024 * 1024 * 4) (state b)) place ∙ run,
      rw root (
          subst (λ (n : ℕ). IsListed t'.regions a ((a, 4096) ∷ (a + 4096, n) ∷ [])) heap_region_lem
            after),
      mapped
          ∙ area-new_pages ops 1025 (full_size (1024 * 1024 * 4)) (a + 4096) t.pages heap_pages
              (omega arith),
    )
