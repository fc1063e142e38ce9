-- ===== src/Paging/Steps.antt =====
-- Each of the three tables that `map_page` of src/mem/paging.c may add to the way of an address.
use potatos.Base.{ℕ, ◌+◌, ◌*◌, ◌/◌, ◌%◌, ◌^◌, ◌<◌, ◌≡◌, ◌≢◌, refl, ap, sym, ◌∙◌, arith}
use potatos.Paging.{Machine, frame, Present, level4, level3, level2, level1}
use potatos.Paging.Windows.{IsSelfMapped}
use potatos.Paging.Grow.{IsAdded, IsGrown}
use potatos.Paging.Path.{
  IsWay, IsPath, IsWay-at, way4, way3, way2, new_frame, new_entry, same_entry, still_self,
  IsUsed-still,
}

-- Entries of different tables, or of one table at different places.
pub distinct_tables :
    (t u i j : ℕ) → t % 4096 ≡ 0 → u % 4096 ≡ 0 → t ≢ u → i < 512 → j < 512 → t + 8 * i ≢ u + 8 * j
distinct_tables t u i j ht hu other hi hj e = absurd (other (omega arith))

-- The entries on the way, and the self map, when an entry of one of the tables gets a new table.
module _ {cr3 v : ℕ} {s s' : Machine} {table : ℕ} (p : IsPath cr3 v s) where
  pub added4 :
      IsAdded s s' (cr3 + 8 * (v / 2 ^ 39 % 512)) table
      → IsSelfMapped s'.words cr3 × (level4 s'.words cr3 v ≡ table + 3)
  added4 g = (
    still_self g cr3 p.aligned p.used (λ e. p.other (omega arith)) p.self,
    new_entry g cr3 (v / 2 ^ 39 % 512) p.aligned p.used (omega arith) refl,
  )

  -- An entry below the top table.
  below_top :
      (t i : ℕ)
      → IsAdded s s' (t + 8 * i) table
      → t % 4096 ≡ 0
      → t ≢ cr3
      → i < 512
      → IsSelfMapped s'.words cr3 × (level4 s'.words cr3 v ≡ level4 s.words cr3 v)
  below_top t i g ht away hi = (
    still_self g cr3 p.aligned p.used
        (distinct_tables cr3 t 510 i p.aligned ht (λ e. away (sym e)) (omega arith) hi) p.self,
    same_entry g cr3 (v / 2 ^ 39 % 512) p.aligned p.used (omega arith) (
        distinct_tables cr3 t (v / 2 ^ 39 % 512) i p.aligned ht (λ e. away (sym e)) (omega arith)
          hi),
  )

  pub added3 :
      Present (level4 s.words cr3 v)
      → IsAdded s s' (frame (level4 s.words cr3 v) + 8 * (v / 2 ^ 30 % 512)) table
      → IsSelfMapped s'.words cr3
        × (level4 s'.words cr3 v ≡ level4 s.words cr3 v)
        × (level3 s'.words cr3 v ≡ table + 3)
  added3 p4 g =
      let l4 = level4 s.words cr3 v in
      let (small4, used4, away4) = p.way.at4 p4 in
      let flat : frame l4 % 4096 ≡ 0 = omega arith in
      let (self, e4) = below_top (frame l4) (v / 2 ^ 30 % 512) g flat away4 (omega arith) in
      (self, e4, rw e4 (new_entry g (frame l4) (v / 2 ^ 30 % 512) flat used4 (omega arith) refl))

  pub added2 :
      Present (level4 s.words cr3 v)
      → Present (level3 s.words cr3 v)
      → IsAdded s s' (frame (level3 s.words cr3 v) + 8 * (v / 2 ^ 21 % 512)) table
      → IsSelfMapped s'.words cr3
        × (level4 s'.words cr3 v ≡ level4 s.words cr3 v)
        × (level3 s'.words cr3 v ≡ level3 s.words cr3 v)
        × (level2 s'.words cr3 v ≡ table + 3)
  added2 p4 p3 g =
      let l4 = level4 s.words cr3 v in
      let l3 = level3 s.words cr3 v in
      let (small4, used4, away4) = p.way.at4 p4 in
      let (small3, used3, away3, apart3) = p.way.at3 p4 p3 in
      let flat4 : frame l4 % 4096 ≡ 0 = omega arith in
      let flat3 : frame l3 % 4096 ≡ 0 = omega arith in
      let (self, e4) = below_top (frame l3) (v / 2 ^ 21 % 512) g flat3 away3 (omega arith) in
      let e3 : level3 s'.words cr3 v ≡ l3 = rw e4 (
        same_entry g (frame l4) (v / 2 ^ 30 % 512) flat4 used4 (omega arith) (
          distinct_tables (frame l4) (frame l3) (v / 2 ^ 30 % 512) (v / 2 ^ 21 % 512) flat4 flat3
            (λ e. apart3 (sym e)) (omega arith) (omega arith))) in
      (
        self,
        e4,
        e3,
        rw e3 (new_entry g (frame l3) (v / 2 ^ 21 % 512) flat3 used3 (omega arith) refl),
      )

  -- The way with the new table, empty, on it.
  grown :
      {a : ℕ} (g : IsGrown s s' a table)
      → IsSelfMapped s'.words cr3
      → IsWay s'.bitmap cr3
          (level4 s'.words cr3 v)
          (level3 s'.words cr3 v)
          (level2 s'.words cr3 v)
          (level1 s'.words cr3 v)
      → IsPath cr3 v s'
  grown g self way = record {
    self = self;
    bitmap = g.added.new.valid;
    aligned = p.aligned;
    other = p.other;
    used = IsUsed-still g.added cr3 p.aligned p.used;
    way = way;
  }

  pub IsPath-step4 :
      IsGrown s s' (cr3 + 8 * (v / 2 ^ 39 % 512)) table
      → IsPath cr3 v s' × Present (level4 s'.words cr3 v)
  IsPath-step4 g =
      let (framed, present, small) = new_frame g.added in
      let (self, e4) = added4 g.added in
      let f4 : frame (level4 s'.words cr3 v) ≡ table = ap frame e4 ∙ framed in
      let e3 : level3 s'.words cr3 v ≡ 0 = rw f4 (g.cleared (v / 2 ^ 30 % 512) (omega arith)) in
      (
        grown g self
            (IsWay-at s'.bitmap cr3 e4 e3 refl refl (way4 g.added cr3 p.aligned p.used _ _)),
        rw e4 present,
      )

  pub IsPath-step3 :
      Present (level4 s.words cr3 v)
      → IsGrown s s' (frame (level4 s.words cr3 v) + 8 * (v / 2 ^ 30 % 512)) table
      → IsPath cr3 v s' × Present (level4 s'.words cr3 v) × Present (level3 s'.words cr3 v)
  IsPath-step3 p4 g =
      let (framed, present, small) = new_frame g.added in
      let (self, e4, e3) = added3 p4 g.added in
      let f3 : frame (level3 s'.words cr3 v) ≡ table = ap frame e3 ∙ framed in
      let e2 : level2 s'.words cr3 v ≡ 0 = rw f3 (g.cleared (v / 2 ^ 21 % 512) (omega arith)) in
      (
        grown g self (
            IsWay-at s'.bitmap cr3 e4 e3 e2 refl
              (way3 g.added cr3 p.aligned p.used (level4 s.words cr3 v) _ _ _ _ p.way p4)),
        rw e4 p4,
        rw e3 present,
      )

  pub IsPath-step2 :
      Present (level4 s.words cr3 v)
      → Present (level3 s.words cr3 v)
      → IsGrown s s' (frame (level3 s.words cr3 v) + 8 * (v / 2 ^ 21 % 512)) table
      → IsPath cr3 v s'
        × Present (level4 s'.words cr3 v)
        × Present (level3 s'.words cr3 v)
        × Present (level2 s'.words cr3 v)
  IsPath-step2 p4 p3 g =
      let (framed, present, small) = new_frame g.added in
      let (self, e4, e3, e2) = added2 p4 p3 g.added in
      let f2 : frame (level2 s'.words cr3 v) ≡ table = ap frame e2 ∙ framed in
      let e1 : level1 s'.words cr3 v ≡ 0 = rw f2 (g.cleared (v / 2 ^ 12 % 512) (omega arith)) in
      (
        grown g self (
            IsWay-at s'.bitmap cr3 e4 e3 e2 e1 (
              way2 g.added cr3 p.aligned p.used (level4 s.words cr3 v) (level3 s.words cr3 v) _ _
                p.way p4 p3)),
        rw e4 p4,
        rw e3 p3,
        rw e2 present,
      )
