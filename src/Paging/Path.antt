-- ===== src/Paging/Path.antt =====
-- The tables on the way of an address, for src/mem/paging.c: apart from one another and from the pages
-- that are free, before and after `map_page` adds one.
use native.Mathlib.Decide.{dec_lt}
use potatos.Base.{
  ℕ, ◌+◌, ◌*◌, ◌/◌, ◌%◌, ◌^◌, ◌≤◌, ◌<◌, ◌≡◌, ◌≢◌, ◌⊎◌, refl, ap, sym, ◌∙◌, false, inl, inr, arith,
}
use potatos.Bitmap.{Bitmap, is_page_free}
use potatos.Bitmap.Pages.{IsBitmap}
use potatos.Paging.{Machine, frame, Present, Small, level4, level3, level2, level1}
use potatos.Paging.Windows.{IsSelfMapped}
use potatos.Paging.Grow.{IsAdded, entry_fields}

-- A page of the bitmap that is used.
abbrev pub IsUsed : Bitmap → ℕ → Type 0
IsUsed b table = is_page_free b (table / 4096) ≡ false

-- Entries of two tables stand apart.
apart :
    (t u i : ℕ)
    → t % 4096 ≡ 0
    → u % 4096 ≡ 0
    → t ≢ u
    → i < 512
    → (t + 8 * i < u) ⊎ (u + 4096 ≤ t + 8 * i)
apart t u i ht hu other hi = elim (dec_lt t u) [
  | yes h ↦ inl (omega arith)
  | no h ↦ inr (omega arith)
]

-- The tables that the entries of the levels 4, 3 and 2 lead to are used pages, no two of them and the
-- top table `top` are the same, none of the entries stands for a large page, and the last entry is not
-- present.
pub record IsWay (b : Bitmap) (top l4 l3 l2 l1 : ℕ) : Type 0 where
  pub at4 : Present l4 → Small l4 × IsUsed b (frame l4) × (frame l4 ≢ top)
  pub at3 :
      Present l4
      → Present l3
      → Small l3 × IsUsed b (frame l3) × (frame l3 ≢ top) × (frame l3 ≢ frame l4)
  pub at2 :
      Present l4
      → Present l3
      → Present l2
      → Small l2
        × IsUsed b (frame l2)
        × (frame l2 ≢ top)
        × (frame l2 ≢ frame l4)
        × (frame l2 ≢ frame l3)
  pub unmapped : Present l4 → Present l3 → Present l2 → l1 % 2 ≡ 0

-- The way of the address `v`, which is not one of the addresses of the tables themselves and is not
-- mapped.
pub record IsPath (cr3 v : ℕ) (s : Machine) : Type 0 where
  pub self : IsSelfMapped s.words cr3
  pub bitmap : IsBitmap s.bitmap
  pub aligned : cr3 % 4096 ≡ 0
  pub other : v / 2 ^ 39 % 512 ≢ 510
  pub used : IsUsed s.bitmap cr3
  pub way :
      IsWay s.bitmap cr3
        (level4 s.words cr3 v)
        (level3 s.words cr3 v)
        (level2 s.words cr3 v)
        (level1 s.words cr3 v)

pub IsWay-at :
    (b : Bitmap) (top : ℕ) {l4 m4 l3 m3 l2 m2 l1 m1 : ℕ}
    → l4 ≡ m4
    → l3 ≡ m3
    → l2 ≡ m2
    → l1 ≡ m1
    → IsWay b top m4 m3 m2 m1
    → IsWay b top l4 l3 l2 l1
IsWay-at b top e4 e3 e2 e1 w = rw (e4, e3, e2, e1) w

-- An entry of a table on the way, other than the one written, is as before.
module _ {s s' : Machine} {a table : ℕ} (g : IsAdded s s' a table) where
  new_aligned : table % 4096 ≡ 0
  new_aligned = omega (arith, g.new.address)

  -- A used page is not the new one, and stays used.
  used_apart : (t : ℕ) → t % 4096 ≡ 0 → IsUsed s.bitmap t → t ≢ table
  used_apart t ht hu e =
      let p : t / 4096 ≡ g.new.page = omega (arith, g.new.address) in
      absurd (ground (arith, g.new.was_free, ap (is_page_free s.bitmap) p))

  pub IsUsed-still : (t : ℕ) → t % 4096 ≡ 0 → IsUsed s.bitmap t → IsUsed s'.bitmap t
  IsUsed-still t ht hu = ground (arith, g.new.now (t / 4096))

  IsUsed-now : IsUsed s'.bitmap table
  IsUsed-now =
      let p : table / 4096 ≡ g.new.page = omega (arith, g.new.address) in
      rw p (ground (arith, g.new.now g.new.page))

  pub same_entry :
      (t i : ℕ)
      → t % 4096 ≡ 0
      → IsUsed s.bitmap t
      → i < 512
      → t + 8 * i ≢ a
      → s'.words (t + 8 * i) ≡ s.words (t + 8 * i)
  same_entry t i ht hu hi other =
      g.outside (t + 8 * i) (apart t table i ht new_aligned (used_apart t ht hu) hi) ∙ ground arith

  pub new_entry :
      (t i : ℕ)
      → t % 4096 ≡ 0
      → IsUsed s.bitmap t
      → i < 512
      → t + 8 * i ≡ a
      → s'.words (t + 8 * i) ≡ table + 3
  new_entry t i ht hu hi same =
      g.outside (t + 8 * i) (apart t table i ht new_aligned (used_apart t ht hu) hi) ∙ ground arith

  pub new_frame : (frame (table + 3) ≡ table) × Present (table + 3) × Small (table + 3)
  new_frame =
      let e = g.new.address in
      let low : g.new.page * 4096 < 2 ^ 46 = omega (arith, g.new.low) in
      rw e (entry_fields g.new.page low)

  -- The self map stays.
  pub still_self :
      (cr3 : ℕ)
      → cr3 % 4096 ≡ 0
      → IsUsed s.bitmap cr3
      → cr3 + 8 * 510 ≢ a
      → IsSelfMapped s.words cr3
      → IsSelfMapped s'.words cr3
  still_self cr3 ha hu other m =
      let e = same_entry cr3 510 ha hu (omega arith) other in
      record { present = rw e m.present; small = rw e m.small; self = rw e m.self }

-- The way after a table is added at each of the three levels.
module _ {s s' : Machine} {a table : ℕ} (g : IsAdded s s' a table) (top : ℕ)
    (aligned : top % 4096 ≡ 0) (used : IsUsed s.bitmap top) where
  pub way4 : (l2 l1 : ℕ) → IsWay s'.bitmap top (table + 3) 0 l2 l1
  way4 l2 l1 =
      let (framed, present, small) = new_frame g in
      record {
        at4 = λ p4.
            (small, rw framed (IsUsed-now g), λ e. used_apart g top aligned used (sym e ∙ framed));
        at3 = λ p4 p3. absurd (omega arith);
        at2 = λ p4 p3 p2. absurd (omega arith);
        unmapped = λ p4 p3 p2. absurd (omega arith);
      }

  pub way3 :
      (l4 l3 l2 l1 m1 : ℕ)
      → IsWay s.bitmap top l4 l3 l2 l1
      → Present l4
      → IsWay s'.bitmap top l4 (table + 3) 0 m1
  way3 l4 l3 l2 l1 m1 w p4 =
      let (framed, present, small) = new_frame g in
      let (small4, used4, away4) = w.at4 p4 in
      record {
        at4 = λ q4. (small4, IsUsed-still g (frame l4) (omega arith) used4, away4);
        at3 = λ q4 q3. (
          small,
          rw framed (IsUsed-now g),
          λ e. used_apart g top aligned used (sym e ∙ framed),
          λ e. used_apart g (frame l4) (omega arith) used4 (sym e ∙ framed),
        );
        at2 = λ q4 q3 q2. absurd (omega arith);
        unmapped = λ q4 q3 q2. absurd (omega arith);
      }

  pub way2 :
      (l4 l3 l2 l1 : ℕ)
      → IsWay s.bitmap top l4 l3 l2 l1
      → Present l4
      → Present l3
      → IsWay s'.bitmap top l4 l3 (table + 3) 0
  way2 l4 l3 l2 l1 w p4 p3 =
      let (framed, present, small) = new_frame g in
      let (small4, used4, away4) = w.at4 p4 in
      let (small3, used3, away3, apart3) = w.at3 p4 p3 in
      record {
        at4 = λ q4. (small4, IsUsed-still g (frame l4) (omega arith) used4, away4);
        at3 = λ q4 q3. (small3, IsUsed-still g (frame l3) (omega arith) used3, away3, apart3);
        at2 = λ q4 q3 q2. (
          small,
          rw framed (IsUsed-now g),
          λ e. used_apart g top aligned used (sym e ∙ framed),
          λ e. used_apart g (frame l4) (omega arith) used4 (sym e ∙ framed),
          λ e. used_apart g (frame l3) (omega arith) used3 (sym e ∙ framed),
        );
        unmapped = λ q4 q3 q2. refl;
      }
