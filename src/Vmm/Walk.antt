-- ===== src/Vmm/Walk.antt =====
-- The loop of `vmm_allocate` of src/mem/vmm.c finds the place that first fit takes.
use potatos.Base.{
  ℕ, zero, suc, ◌+◌, ◌-◌, ◌≤◌, ◌<◌, ◌^◌, ◌≡◌, ◌≢◌, refl, ap, leb, if◌then◌else◌, arith, List, [],
  ◌∷◌, ◌++◌, Bool, true, false, some, length, Bool-cases, inl, inr, ◌==◌, sub64, u64, ◌∙◌,
}
use potatos.Vmm.{VmmRegion, walk}
use potatos.Vmm.Places.{Place, IsListed, IsOrdered, place_after, IsOrdered-least}

-- Where the loop stops in `(a, n)` and the places after it: at `(prev, k)`, with a gap or at the end,
-- as first fit does.
pub record IsStop (size a n : ℕ) (rest : List Place) (prev : ℕ) (gap : Bool) : Type 0 where
  pub prev_size : ℕ
  pub before : List Place
  pub after : List Place
  pub whole : (a, n) ∷ rest ≡ before ++ (prev, prev_size) ∷ after
  pub placed :
      place_after size a n rest ≡ before ++ (prev, prev_size) ∷ (prev + prev_size, size) ∷ after
  pub at_end : gap ≡ false → after ≡ []

-- A round in front of a node.
walk_step :
    (fuel size a n b : ℕ) (regions : ℕ → VmmRegion)
    → a ≢ 0
    → (regions a).size ≡ n
    → (regions a).next ≡ b
    → b ≢ 0
    → a + n ≤ b
    → b < 2 ^ 64
    → walk (suc fuel) size (regions a).next a regions ≡ (
        if leb size (b - (a + n))
        then some (a, true)
        else walk fuel size (regions b).next b regions)
unfolding walk
walk_step fuel size a n b regions real sized at other over small =
    let gap : sub64 b (u64 (a + n)) ≡ b - (a + n) = omega arith in
    let first : (a == 0) ≡ false = ground arith in
    let second : (b == 0) ≡ false = ground arith in rw (sized, at, gap, first, second) refl

-- With a round for each place that is left, and one more.
pub walk_lem :
    (fuel size a n limit : ℕ) (rest : List Place) (regions : ℕ → VmmRegion)
    → length rest < fuel
    → 0 < size
    → limit < 2 ^ 64
    → a ≢ 0
    → (regions a).size ≡ n
    → IsListed regions (regions a).next rest
    → IsOrdered limit a ((a, n) ∷ rest)
    → (prev : ℕ) × (gap : Bool) × (walk fuel size (regions a).next a regions ≡ some (prev, gap))
      × IsStop size a n rest prev gap
unfolding walk
walk_lem zero size a n limit rest regions few pos bound real sized l o = absurd (omega arith)
walk_lem (suc fuel) size a n limit [] regions few pos bound real sized l o = (
  a,
  false,
  rw l refl,
  record {
    prev_size = n;
    before = [];
    after = [];
    whole = refl;
    placed = refl;
    at_end = λ e. refl;
  },
)
walk_lem (suc fuel) size a n limit ((b, m) ∷ rest) regions few pos bound real sized
      (at, other, measured, l) (low, large, (over, full, next)) =
    let inside = IsOrdered-least limit (b + m) rest next in
    let step = walk_step fuel size a n b regions real sized at other over (omega arith) in
    elim (Bool-cases (leb size (b - (a + n)))) [
      | inl fits ↦ (
        a,
        true,
        step ∙ rw fits refl,
        record {
          prev_size = n;
          before = [];
          after = (b, m) ∷ rest;
          whole = refl;
          placed = rw fits refl;
          at_end = λ e. absurd (ground (arith, e));
        },
      )
      | inr tight ↦
          let (prev, gap, found, stop) =
            walk_lem fuel size b m limit rest regions (omega arith) pos bound other measured l
              (omega arith, full, next) in
          (
            prev,
            gap,
            step ∙ rw tight found,
            record {
              prev_size = stop.prev_size;
              before = (a, n) ∷ stop.before;
              after = stop.after;
              whole = ap (λ t. (a, n) ∷ t) stop.whole;
              placed = rw tight (ap (λ t. (a, n) ∷ t) stop.placed);
              at_end = stop.at_end;
            },
          )
    ]
