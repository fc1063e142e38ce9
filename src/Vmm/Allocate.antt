-- ===== src/Vmm/Allocate.antt =====
-- `vmm_allocate` of src/mem/vmm.c is first fit.
use potatos.Base.{
  ℕ, suc, ◌+◌, ◌*◌, ◌≤◌, ◌<◌, ◌^◌, ◌≡◌, ◌≢◌, refl, ◌∙◌, if◌then◌else◌, arith, List, ◌∷◌, Bool,
  false, some, length, ◌==◌, u64,
}
use potatos.Vmm.{
  linked_nodes, VmmRegion, Vmm, PageOps, sizeof_region, walk, size_root, align_to_nearest_page,
  vmm_allocate, vmm_allocate_area,
}
use potatos.Vmm.Places.{Place, IsListed, IsOrdered, place_after, place_after-IsOrdered}
use potatos.Vmm.Walk.{IsStop, walk_lem}
use potatos.Vmm.Links.{linked_nodes-IsListed, stop_place}

-- What is asked for, with the node, in whole pages.
abbrev pub full_size : ℕ → ℕ
full_size size = align_to_nearest_page (u64 (size + sizeof_region))

pub full_size_lem :
    (size : ℕ) → size + 16 + 4096 ≤ 2 ^ 64 → (0 < full_size size) × (size + 16 ≤ full_size size)
unfolding align_to_nearest_page
full_size_lem size h = omega arith

size_root-same :
    (root : ℕ) (regions : ℕ → VmmRegion)
    → 0 < (regions root).size
    → size_root root regions ≡ regions
unfolding size_root
size_root-same root regions full =
    let sized : ((regions root).size == 0) ≡ false = ground arith in rw (size_root, sized) refl

first_round :
    (fuel size root : ℕ) (regions : ℕ → VmmRegion)
    → root ≢ 0
    → walk (suc fuel) size root 0 regions ≡ walk fuel size (regions root).next root regions
unfolding walk
first_round fuel size root regions real = let e : (root == 0) ≡ false = ground arith in rw e refl

-- The calls in front of the loop change nothing, and its first round goes on.
pub vmm_allocate_step :
    {P : Type 0} (ops : PageOps P) (fuel size prev : ℕ) (gap : Bool) (s : Vmm P)
    → s.vm_root ≢ 0
    → 0 < (s.regions s.vm_root).size
    → walk fuel (full_size size) (s.regions s.vm_root).next s.vm_root s.regions ≡ some (prev, gap)
    → vmm_allocate ops (suc fuel) size s
      ≡ some (
        u64 (
            u64 (prev + (s.regions prev).size)
            + (if gap then sizeof_region * sizeof_region else sizeof_region)),
        record s {
          regions =
              linked_nodes gap (u64 (prev + (s.regions prev).size)) (full_size size) prev s.regions;
          pages =
              vmm_allocate_area ops (u64 (prev + (s.regions prev).size)) (full_size size) s.pages;
        },
      )
unfolding vmm_allocate
vmm_allocate_step ops fuel size prev gap s real full found =
    let same = size_root-same s.vm_root s.regions full in
    let round = first_round fuel (full_size size) s.vm_root s.regions real ∙ found in
    rw (vmm_allocate, same, round, same) refl

-- What `vmm_allocate` does to the list of places, and the address that it returns: behind the node of
-- a new region of the full size.
pub record IsAllocated {P : Type 0} (size a n limit : ℕ) (rest : List Place) (s : Vmm P)
    (returned : ℕ) (s' : Vmm P) : Type 0 where
  pub root : s'.vm_root ≡ s.vm_root
  pub listed : IsListed s'.regions s'.vm_root (place_after (full_size size) a n rest)
  pub ordered : IsOrdered (limit + full_size size) a (place_after (full_size size) a n rest)
  pub prev : ℕ
  pub gap : Bool
  pub stop : IsStop (full_size size) a n rest prev gap
  pub address :
      returned
      ≡ prev + stop.prev_size + (if gap then sizeof_region * sizeof_region else sizeof_region)

-- `vmm_allocate` on a list of regions in order returns, with two rounds more than there are regions
-- behind the first, when sizes and addresses do not wrap around: the new region of whole pages, the
-- node included, is in the first gap that is large enough or at the end, the list is in order with it,
-- and the address returned is 16 bytes behind its start at the end and 256 bytes in a gap.
pub vmm_allocate_lem :
    {P : Type 0} (ops : PageOps P) (fuel size a n limit : ℕ) (rest : List Place) (s : Vmm P)
    → length rest < fuel
    → size + 16 + 4096 ≤ 2 ^ 64
    → limit + full_size size + 256 < 2 ^ 64
    → IsListed s.regions s.vm_root ((a, n) ∷ rest)
    → IsOrdered limit a ((a, n) ∷ rest)
    → (returned : ℕ) × (s' : Vmm P) × (vmm_allocate ops (suc fuel) size s ≡ some (returned, s'))
      × IsAllocated size a n limit rest s returned s'
vmm_allocate_lem ops fuel size a n limit rest s few fine room (at, real, sized, l) o =
    let (pos, large) = full_size_lem size fine in
    let (prev, gap, found, stop) =
      walk_lem fuel (full_size size) a n limit rest s.regions few pos (omega arith) real sized l
        o in
    let step =
      vmm_allocate_step ops fuel size prev gap s (rw at real) (rw (at, sized) o.1) (rw at found) in
    let (measured, inside) =
      stop_place (full_size size) a n limit prev gap rest s.regions stop (refl, real, sized, l) o in
    let current : u64 (prev + (s.regions prev).size) ≡ prev + stop.prev_size =
      omega (arith, measured) in
    (
      _,
      _,
      step,
      record {
        root = refl;
        listed =
            rw (current, at)
              (linked_nodes-IsListed (full_size size) a n limit prev gap rest s.regions stop pos
                (refl, real, sized, l) o);
        ordered = place_after-IsOrdered (full_size size) a n limit a rest pos o;
        prev = prev;
        gap = gap;
        stop = stop;
        address = rw current (ground arith);
      },
    )
