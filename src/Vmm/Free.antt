-- ===== src/Vmm/Free.antt =====
-- `vmm_free` of src/mem/vmm.c takes one region out of the list.
use potatos.Base.{
  ℕ, zero, suc, ◌+◌, ◌/◌, ◌≤◌, ◌<◌, ◌^◌, ◌≡◌, ◌≢◌, refl, ◌∙◌, arith, List, [], ◌∷◌, ◌++◌, true,
  false, some, length, ◌==◌, page_size, sub64,
}
use potatos.Vmm.{Vmm, PageOps, set_next, free_loop, vmm_free, sizeof_region}
use potatos.Vmm.Places.{
  Place, IsListed, IsOrdered, IsListed-above, IsListed-swap, IsOrdered-tail, IsOrdered-low,
}

module _ {P : Type 0} (ops : PageOps P) where
  -- The state without the region at `target`, whose node follows the one at `p`.
  abbrev pub without : (p target : ℕ) → Vmm P → Vmm P
  without p target s = record s {
    regions = set_next p (s.regions target).next s.regions;
    pages =
        ops.map_page target 0 0
          (ops.set_page_free (ops.get_physical_address target s.pages / page_size) s.pages);
  }

  -- A round at another node, and the round at the node itself.
  other_round :
      (fuel target current prev : ℕ) (s : Vmm P)
      → current ≢ 0
      → current ≢ target
      → free_loop ops (suc fuel) target current prev s
        ≡ free_loop ops fuel target (s.regions current).next current s
  unfolding free_loop
  other_round fuel target current prev s real other =
      let first : (current == 0) ≡ false = ground arith in
      let second : (current == target) ≡ false = ground arith in rw (first, second) refl

  last_round :
      (fuel target prev : ℕ) (s : Vmm P)
      → target ≢ 0
      → free_loop ops (suc fuel) target target prev s ≡ some (without prev target s)
  unfolding free_loop
  last_round fuel target prev s real =
      let first : (target == 0) ≡ false = ground arith in
      let second : (target == target) ≡ true = ground arith in rw (first, second) refl

  free_loop_lem :
      (fuel limit least head q p k target m : ℕ) (before after : List Place) (s : Vmm P)
      → length before + 1 < fuel
      → IsListed s.regions head (before ++ (p, k) ∷ (target, m) ∷ after)
      → IsOrdered limit least (before ++ (p, k) ∷ (target, m) ∷ after)
      → free_loop ops fuel target head q s ≡ some (without p target s)
  free_loop_lem (suc (suc fuel)) limit least head q p k target m [] after s few
        (at, real, sized, (next, found, measured, rest)) (low, large, (over, positive, ordered)) =
      rw at (
        other_round (suc fuel) target p q s real (omega arith)
        ∙ rw next (last_round fuel target p s found))
  free_loop_lem (suc fuel) limit least head q p k target m ((a, n) ∷ before) after s few
        (at, real, sized, l) (low, large, o) =
      let (mid, big, behind) = IsOrdered-tail limit (a + n) p k before ((target, m) ∷ after) o in
      let higher = IsOrdered-low limit (a + n) p k before ((target, m) ∷ after) o in
      rw at (
        other_round fuel target a q s real (omega (arith, behind.0))
        ∙ free_loop_lem fuel limit (a + n) (s.regions a).next a p k target m before after s
            (omega arith) l o)
  free_loop_lem zero limit least head q p k target m before after s few l o = absurd (omega arith)
  free_loop_lem (suc zero) limit least head q p k target m [] after s few l o = absurd (omega arith)

  -- The rest of the list is linked without it.
  without-IsListed :
      (limit least p k target m : ℕ) (before after : List Place) (s : Vmm P)
      → IsListed s.regions s.vm_root (before ++ (p, k) ∷ (target, m) ∷ after)
      → IsOrdered limit least (before ++ (p, k) ∷ (target, m) ∷ after)
      → IsListed (without p target s).regions s.vm_root (before ++ (p, k) ∷ after)
  without-IsListed limit least p k target m before after s l o =
      let regions = s.regions in
      let other = (without p target s).regions in
      let self : (p == p) ≡ true = ground arith in
      let (low, large, (over, positive, ordered)) =
        IsOrdered-tail limit least p k before ((target, m) ∷ after) o in
      let away : (x : ℕ) → x ≢ p → other x ≡ regions x =
        λ x h. let e : (p == x) ≡ false = ground arith in rw e refl in
      IsListed-swap regions other limit least s.vm_root p k before ((target, m) ∷ after)
        ((p, k) ∷ after) (λ x h. away x (omega arith))
        (λ here. (
          refl,
          here.1,
          rw self here.2,
          rw self (
              IsListed-above regions other limit (target + m) (regions target).next after
                (λ x h. away x (omega arith)) ordered here.3.3),
        ))
        o l

  -- `vmm_free` of the address behind the node of a region that is not the first one returns, with two
  -- rounds more than there are regions in front: the region is out of the list, and the page that its
  -- node lay on is freed and handed to `map_page` to unmap it; the other pages of the region are
  -- neither.
  pub vmm_free_lem :
      (fuel limit least p k target m : ℕ) (before after : List Place) (s : Vmm P)
      → length before + 1 < fuel
      → limit + 16 < 2 ^ 64
      → target ≤ limit
      → IsListed s.regions s.vm_root (before ++ (p, k) ∷ (target, m) ∷ after)
      → IsOrdered limit least (before ++ (p, k) ∷ (target, m) ∷ after)
      → (s' : Vmm P) × (vmm_free ops fuel (target + sizeof_region) s ≡ some s')
        × IsListed s'.regions s'.vm_root (before ++ (p, k) ∷ after)
        × (s'.pages
            ≡ ops.map_page target 0 0
                (ops.set_page_free (ops.get_physical_address target s.pages / page_size) s.pages))
  unfolding vmm_free
  vmm_free_lem fuel limit least p k target m before after s few room low l o =
      let back : sub64 (target + 16) 16 ≡ target = omega arith in
      (
        without p target s,
        rw (vmm_free, back)
            (free_loop_lem fuel limit least s.vm_root 0 p k target m before after s few l o),
        without-IsListed limit least p k target m before after s l o,
        refl,
      )
