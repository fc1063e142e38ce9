-- ===== src/Vmm/Links.antt =====
-- The nodes of src/mem/vmm.c after `vmm_allocate` has linked in a new one.
use mathlib.Core.Path.{subst}
use potatos.Base.{
  ℕ, ◌+◌, ◌≤◌, ◌<◌, ◌≡◌, ◌≢◌, refl, sym, ◌∙◌, arith, List, ◌∷◌, Bool, true, false, ◌==◌,
}
use potatos.Vmm.{linked_nodes, VmmRegion, link_in_gap, link_at_end}
use potatos.Vmm.Places.{
  Place, IsListed, IsOrdered, IsListed-above, IsListed-swap, IsOrdered-tail, IsListed-tail,
  IsOrdered-least, place_after, place_after-IsOrdered,
}
use potatos.Vmm.Walk.{IsStop}

-- The node `c` of the size `size` is linked in behind `p`.
record IsLinked (regions other : ℕ → VmmRegion) (p c size : ℕ) : Type 0 where
  elsewhere : (x : ℕ) → x ≢ p → x ≢ c → other x ≡ regions x
  first_next : (other p).next ≡ c
  first_size : (other p).size ≡ (regions p).size
  second_next : (other c).next ≡ (regions p).next
  second_size : (other c).size ≡ size

in_gap-IsLinked :
    (regions : ℕ → VmmRegion) (p c size : ℕ)
    → p ≢ c
    → IsLinked regions (link_in_gap c size p regions) p c size
in_gap-IsLinked regions p c size h =
    let pp : (p == p) ≡ true = ground arith in
    let pc : (p == c) ≡ false = ground arith in
    let cp : (c == p) ≡ false = ground arith in
    let cc : (c == c) ≡ true = ground arith in
    record {
      elsewhere = λ x hp hc.
          let px : (p == x) ≡ false = ground arith in
          let cx : (c == x) ≡ false = ground arith in rw (px, cx) refl;
      first_next = rw pp refl;
      first_size = rw (pp, cp) refl;
      second_next = rw (pc, cc, cp) refl;
      second_size = rw (pc, cc) refl;
    }

at_end-IsLinked :
    (regions : ℕ → VmmRegion) (p c size : ℕ)
    → p ≢ c
    → (regions p).next ≡ 0
    → IsLinked regions (link_at_end c size p regions) p c size
at_end-IsLinked regions p c size h last =
    let pp : (p == p) ≡ true = ground arith in
    let pc : (p == c) ≡ false = ground arith in
    let cp : (c == p) ≡ false = ground arith in
    let cc : (c == c) ≡ true = ground arith in
    record {
      elsewhere = λ x hp hc.
          let px : (p == x) ≡ false = ground arith in
          let cx : (c == x) ≡ false = ground arith in rw (px, cx) refl;
      first_next = rw pp refl;
      first_size = rw (pp, cp) refl;
      second_next = rw (pc, cc, last) refl;
      second_size = rw (pc, cc) refl;
    }

-- The list with the new node.
IsLinked-IsListed :
    (regions other : ℕ → VmmRegion) (limit p k size : ℕ) (after : List Place)
    → IsLinked regions other p (p + k) size
    → IsOrdered limit p ((p, k) ∷ (p + k, size) ∷ after)
    → IsListed regions p ((p, k) ∷ after)
    → IsListed other p ((p, k) ∷ (p + k, size) ∷ after)
IsLinked-IsListed regions other limit p k size after linked (low, pos, (mid, large, o))
      (at, real, sized, l) =
    let kept =
      IsListed-above regions other limit (p + k + size) (regions p).next after
        (λ x h. linked.elsewhere x (omega arith) (omega arith)) o l in
    (
      refl,
      real,
      linked.first_size ∙ sized,
      (linked.first_next, omega arith, linked.second_size, rw linked.second_next kept),
    )

linked_nodes-IsLinked :
    (gap : Bool) (regions : ℕ → VmmRegion) (p c size : ℕ)
    → p ≢ c
    → (gap ≡ false → (regions p).next ≡ 0)
    → IsLinked regions (linked_nodes gap c size p regions) p c size
unfolding linked_nodes
linked_nodes-IsLinked true regions p c size h last = in_gap-IsLinked regions p c size h
linked_nodes-IsLinked false regions p c size h last = at_end-IsLinked regions p c size h (last refl)

-- The nodes are linked as the places say.
pub linked_nodes-IsListed :
    (size a n limit prev : ℕ) (gap : Bool) (rest : List Place) (regions : ℕ → VmmRegion)
    → (stop : IsStop size a n rest prev gap) → 0 < size
    → IsListed regions a ((a, n) ∷ rest)
    → IsOrdered limit a ((a, n) ∷ rest)
    → IsListed
        (linked_nodes gap (prev + stop.prev_size) size prev regions)
        a
        (place_after size a n rest)
linked_nodes-IsListed size a n limit prev gap rest regions stop pos l o =
    let k = stop.prev_size in
    let other = linked_nodes gap (prev + k) size prev regions in
    let whole_l = subst (IsListed regions a) stop.whole l in
    let whole_o = subst (IsOrdered limit a) stop.whole o in
    let (here, real, sized, tail) = IsListed-tail regions a prev k stop.before stop.after whole_l in
    let placed =
      subst (IsOrdered (limit + size) a) stop.placed
        (place_after-IsOrdered size a n limit a rest pos o) in
    let (low, large, behind) =
      IsOrdered-tail (limit + size) a prev k stop.before ((prev + k, size) ∷ stop.after) placed in
    let linked =
      linked_nodes-IsLinked gap regions prev (prev + k) size (omega arith)
        (λ e. subst (IsListed regions (regions prev).next) (stop.at_end e) tail) in
    subst (IsListed other a) (sym stop.placed) (
      IsListed-swap regions other limit a a prev k stop.before stop.after
        ((prev, k) ∷ (prev + k, size) ∷ stop.after)
        (λ x h. linked.elsewhere x (omega arith) (omega arith))
        (IsLinked-IsListed regions other (limit + size) prev k size stop.after linked
          (low, large, behind))
        whole_o whole_l)

-- Where the loop stops there is a node of its place's size, below the limit.
pub stop_place :
    (size a n limit prev : ℕ) (gap : Bool) (rest : List Place) (regions : ℕ → VmmRegion)
    → (stop : IsStop size a n rest prev gap) → IsListed regions a ((a, n) ∷ rest)
    → IsOrdered limit a ((a, n) ∷ rest)
    → ((regions prev).size ≡ stop.prev_size) × (prev + stop.prev_size ≤ limit)
stop_place size a n limit prev gap rest regions stop l o =
    let k = stop.prev_size in
    let (here, real, sized, tail) =
      IsListed-tail regions a prev k stop.before stop.after
        (subst (IsListed regions a) stop.whole l) in
    let (low, large, behind) =
      IsOrdered-tail limit a prev k stop.before stop.after
        (subst (IsOrdered limit a) stop.whole o) in
    (sized, IsOrdered-least limit (prev + k) stop.after behind)
