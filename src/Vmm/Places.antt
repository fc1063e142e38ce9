-- ===== src/Vmm/Places.antt =====
-- The regions of src/mem/vmm.c as a list of places, first fit, and its order.
use potatos.Base.{
  Bool-cases, inl, inr, ℕ, ◌+◌, ◌-◌, ◌≤◌, ◌<◌, ◌≡◌, ◌≢◌, refl, leb, if◌then◌else◌, arith, List, [],
  ◌∷◌, ◌++◌,
}
use potatos.Vmm.{VmmRegion}

-- A region's address and its size.
abbrev pub Place : Type 0
Place = ℕ × ℕ

-- The nodes from `head` on are those of the list.
abbrev pub IsListed : (ℕ → VmmRegion) → (head : ℕ) → List Place → Type 0
IsListed regions head [] = head ≡ 0
IsListed regions head ((a, n) ∷ rest) =
    (head ≡ a) × (a ≢ 0) × ((regions a).size ≡ n) × IsListed regions (regions a).next rest

-- The places are in the order of their addresses from `least` up to `limit` and do not overlap.
abbrev pub IsOrdered : (limit least : ℕ) → List Place → Type 0
IsOrdered limit least [] = least ≤ limit
IsOrdered limit least ((a, n) ∷ rest) = (least ≤ a) × (0 < n) × IsOrdered limit (a + n) rest

-- A place behind `(a, n)`: in the first gap that is large enough, or at the end.
abbrev pub place_after : (size a n : ℕ) → List Place → List Place
place_after size a n [] = (a, n) ∷ (a + n, size) ∷ []
place_after size a n ((b, m) ∷ rest) =
    let further = place_after size b m rest in
    if leb size (b - (a + n)) then (a, n) ∷ (a + n, size) ∷ (b, m) ∷ rest else (a, n) ∷ further

widen :
    (limit wider least : ℕ) (places : List Place)
    → limit ≤ wider
    → IsOrdered limit least places
    → IsOrdered wider least places
widen limit wider least [] h o = omega arith
widen limit wider least ((a, n) ∷ rest) h (low, pos, o) =
    (low, pos, widen limit wider (a + n) rest h o)

pub IsOrdered-least :
    (limit least : ℕ) (places : List Place) → IsOrdered limit least places → least ≤ limit
IsOrdered-least limit least [] o = o
IsOrdered-least limit least ((a, n) ∷ rest) (low, pos, o) =
    let h = IsOrdered-least limit (a + n) rest o in omega arith

-- A new place keeps the order.
pub place_after-IsOrdered :
    (size a n limit least : ℕ) (rest : List Place)
    → 0 < size
    → IsOrdered limit least ((a, n) ∷ rest)
    → IsOrdered (limit + size) least (place_after size a n rest)
place_after-IsOrdered size a n limit least [] h (low, pos, end) =
    (low, pos, (omega arith, h, omega arith))
place_after-IsOrdered size a n limit least ((b, m) ∷ rest) h (low, pos, next) =
    elim (Bool-cases (leb size (b - (a + n)))) [
      | inl fits ↦
          let room : a + n + size ≤ b = ground arith in
          rw fits (
            low,
            pos,
            (
              omega arith,
              h,
              (room, next.1, widen limit (limit + size) (b + m) rest (omega arith) next.2),
            ),
          )
      | inr tight ↦ rw tight (low, pos, place_after-IsOrdered size b m limit (a + n) rest h next)
    ]

-- Nodes that agree from `least` on, or up to a bound, have the same list.
pub IsListed-above :
    (regions other : ℕ → VmmRegion) (limit least head : ℕ) (places : List Place)
    → ((x : ℕ) → least ≤ x → other x ≡ regions x)
    → IsOrdered limit least places
    → IsListed regions head places
    → IsListed other head places
IsListed-above regions other limit least head [] same o l = l
IsListed-above regions other limit least head ((a, n) ∷ rest) same (low, pos, o)
      (at, real, sized, l) =
    let e : other a ≡ regions a = same a low in
    (
      at,
      real,
      rw e sized,
      rw e (
          IsListed-above regions other limit (a + n) (regions a).next rest
            (λ x h. same x (omega arith)) o l),
    )

-- What stands behind a list of ordered places stands higher.
pub IsOrdered-low :
    (limit least p n : ℕ) (before after : List Place)
    → IsOrdered limit least (before ++ (p, n) ∷ after)
    → least ≤ p
IsOrdered-low limit least p n [] after o = o.0
IsOrdered-low limit least p n ((a, m) ∷ before) after (low, pos, o) =
    let h = IsOrdered-low limit (a + m) p n before after o in omega arith

-- A change to the nodes from `(p, n)` on leaves the nodes in front of it.
pub IsListed-swap :
    (regions other : ℕ → VmmRegion) (limit least head p n : ℕ) (before after new : List Place)
    → ((x : ℕ) → x < p → other x ≡ regions x)
    → (IsListed regions p ((p, n) ∷ after) → IsListed other p new)
    → IsOrdered limit least (before ++ (p, n) ∷ after)
    → IsListed regions head (before ++ (p, n) ∷ after)
    → IsListed other head (before ++ new)
IsListed-swap regions other limit least head p n [] after new same change o (at, real, sized, l) =
    rw at (change (refl, real, sized, l))
IsListed-swap regions other limit least head p n ((a, m) ∷ before) after new same change
      (low, pos, o) (at, real, sized, l) =
    let higher = IsOrdered-low limit (a + m) p n before after o in
    let e : other a ≡ regions a = same a (omega arith) in
    (
      at,
      real,
      rw e sized,
      rw e (
          IsListed-swap regions other limit (a + m) (regions a).next p n before after new same
            change o l),
    )

pub IsOrdered-tail :
    (limit least p n : ℕ) (before after : List Place)
    → IsOrdered limit least (before ++ (p, n) ∷ after)
    → IsOrdered limit p ((p, n) ∷ after)
IsOrdered-tail limit least p n [] after (low, pos, o) = (omega arith, pos, o)
IsOrdered-tail limit least p n ((a, m) ∷ before) after (low, pos, o) =
    IsOrdered-tail limit (a + m) p n before after o

pub IsListed-tail :
    (regions : ℕ → VmmRegion) (head p n : ℕ) (before after : List Place)
    → IsListed regions head (before ++ (p, n) ∷ after)
    → IsListed regions p ((p, n) ∷ after)
IsListed-tail regions head p n [] after (at, real, sized, l) = (refl, real, sized, l)
IsListed-tail regions head p n ((a, m) ∷ before) after (at, real, sized, l) =
    IsListed-tail regions (regions a).next p n before after l
