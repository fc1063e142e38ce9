-- ===== src/Paging/Others.antt =====
-- What is mapped stays mapped, to the same page, when `map_page` of src/mem/paging.c writes entries
-- that are not present and takes new pages for tables.
use potatos.Base.{ℕ, ◌+◌, ◌*◌, ◌/◌, ◌%◌, ◌^◌, ◌<◌, ◌≡◌, ◌≢◌, ap, sym, ◌∙◌, arith, false, some}
use potatos.Bitmap.{Bitmap, is_page_free}
use potatos.Paging.{
  write_word, Mmu, Machine, Canonical, frame, Present, Small, level4, level3, level2, level1,
}
use potatos.Paging.Grow.{IsAdded}
use potatos.Paging.Path.{IsUsed, same_entry, IsUsed-still}

-- The entries on the way of an address are present and lead to used pages as tables.
pub record IsTaken (b : Bitmap) (top l4 l3 l2 l1 : ℕ) : Type 0 where
  pub used : IsUsed b top
  pub present4 : Present l4
  pub used4 : IsUsed b (frame l4)
  pub present3 : Present l3
  pub small3 : Small l3
  pub used3 : IsUsed b (frame l3)
  pub present2 : Present l2
  pub small2 : Small l2
  pub used2 : IsUsed b (frame l2)
  pub present1 : Present l1

-- The address `w` is mapped, through tables that are used pages.
abbrev pub IsMapped : (cr3 w : ℕ) → Machine → Type 0
IsMapped cr3 w s =
    IsTaken s.bitmap cr3 (level4 s.words cr3 w) (level3 s.words cr3 w) (level2 s.words cr3 w)
      (level1 s.words cr3 w)

pub translate-IsMapped :
    (mmu : Mmu) (cr3 w : ℕ) (s : Machine)
    → Canonical w
    → IsMapped cr3 w s
    → mmu.translate s.words cr3 w ≡ some (frame (level1 s.words cr3 w) + w % 4096)
translate-IsMapped mmu cr3 w s canonical m =
    mmu.walk s.words cr3 w canonical m.present4 m.present3 m.small3 m.present2 m.small2 m.present1

-- What is mapped in `s` is mapped in `s'` to the same page.
abbrev pub Keeps : (cr3 : ℕ) → Machine → Machine → Type 0
Keeps cr3 s s' =
    (w : ℕ) → IsMapped cr3 w s → IsMapped cr3 w s' × (level1 s'.words cr3 w ≡ level1 s.words cr3 w)

pub Keeps-trans : (cr3 : ℕ) (s t u : Machine) → Keeps cr3 s t → Keeps cr3 t u → Keeps cr3 s u
Keeps-trans cr3 s t u st tu w m =
    let (mapped, same) = st w m in let (mapped', same') = tu w mapped in (mapped', same' ∙ same)

IsTaken-at :
    (b : Bitmap) (top : ℕ) {l4 m4 l3 m3 l2 m2 l1 m1 : ℕ}
    → l4 ≡ m4
    → l3 ≡ m3
    → l2 ≡ m2
    → l1 ≡ m1
    → IsTaken b top m4 m3 m2 m1
    → IsTaken b top l4 l3 l2 l1
IsTaken-at b top e4 e3 e2 e1 w = rw (e4, e3, e2, e1) w

-- A change that leaves the present entries of used tables keeps what is mapped.
Keeps-by :
    (cr3 : ℕ) (s s' : Machine)
    → cr3 % 4096 ≡ 0
    → ((t : ℕ) → t % 4096 ≡ 0 → IsUsed s.bitmap t → IsUsed s'.bitmap t)
    → ((t i : ℕ)
        → t % 4096 ≡ 0
        → IsUsed s.bitmap t
        → i < 512
        → Present (s.words (t + 8 * i))
        → s'.words (t + 8 * i) ≡ s.words (t + 8 * i))
    → Keeps cr3 s s'
Keeps-by cr3 s s' aligned still same w m =
    let l4 = level4 s.words cr3 w in
    let l3 = level3 s.words cr3 w in
    let l2 = level2 s.words cr3 w in
    let l1 = level1 s.words cr3 w in
    let e4 : level4 s'.words cr3 w ≡ l4 =
      same cr3 (w / 2 ^ 39 % 512) aligned m.used (omega arith) m.present4 in
    let e3 : level3 s'.words cr3 w ≡ l3 =
      rw e4 (same (frame l4) (w / 2 ^ 30 % 512) (omega arith) m.used4 (omega arith) m.present3) in
    let e2 : level2 s'.words cr3 w ≡ l2 =
      rw e3 (same (frame l3) (w / 2 ^ 21 % 512) (omega arith) m.used3 (omega arith) m.present2) in
    let e1 : level1 s'.words cr3 w ≡ l1 =
      rw e2 (same (frame l2) (w / 2 ^ 12 % 512) (omega arith) m.used2 (omega arith) m.present1) in
    (
      IsTaken-at s'.bitmap cr3 e4 e3 e2 e1 (record {
        used = still cr3 aligned m.used;
        present4 = m.present4;
        used4 = still (frame l4) (omega arith) m.used4;
        present3 = m.present3;
        small3 = m.small3;
        used3 = still (frame l3) (omega arith) m.used3;
        present2 = m.present2;
        small2 = m.small2;
        used2 = still (frame l2) (omega arith) m.used2;
        present1 = m.present1;
      }),
      e1,
    )

pub added-Keeps :
    (cr3 : ℕ) {s s' : Machine} {a table : ℕ}
    → cr3 % 4096 ≡ 0
    → s.words a % 2 ≡ 0
    → IsAdded s s' a table
    → Keeps cr3 s s'
added-Keeps cr3 {s} {s'} {a} aligned absent g =
    Keeps-by cr3 s s' aligned (IsUsed-still g) (λ t i ht hu hi present.
      same_entry g t i ht hu hi
        (λ e. let same : s.words (t + 8 * i) ≡ s.words a = ap s.words e in omega (arith, same)))

pub write-Keeps :
    (cr3 a entry : ℕ) (s : Machine)
    → cr3 % 4096 ≡ 0
    → s.words a % 2 ≡ 0
    → Keeps cr3 s (record s { words = write_word s.words a entry })
write-Keeps cr3 a entry s aligned absent =
    Keeps-by cr3 s (record s { words = write_word s.words a entry }) aligned (λ t ht hu. hu)
      (λ t i ht hu hi present.
        let other : a ≢ t + 8 * i =
          λ e. (let same : s.words a ≡ s.words (t + 8 * i) = ap s.words e in omega (arith, same)) in
        ground (arith, other))

-- The pages that are used stay used.
abbrev pub StillUsed : Bitmap → Bitmap → Type 0
StillUsed b b' = (page : ℕ) → is_page_free b page ≡ false → is_page_free b' page ≡ false

pub added-StillUsed :
    {s s' : Machine} {a table : ℕ} → IsAdded s s' a table → StillUsed s.bitmap s'.bitmap
added-StillUsed g page used = ground (arith, g.new.now page)

-- What stays mapped is translated as before.
pub translate-Keeps :
    (mmu : Mmu) (cr3 : ℕ) (s s' : Machine)
    → Keeps cr3 s s'
    → (w : ℕ) → Canonical w
    → IsMapped cr3 w s
    → mmu.translate s'.words cr3 w ≡ mmu.translate s.words cr3 w
translate-Keeps mmu cr3 s s' keeps w canonical m =
    let (mapped, same) = keeps w m in
    translate-IsMapped mmu cr3 w s' canonical mapped
    ∙ ap (λ l. some (frame l + w % 4096)) same
    ∙ sym (translate-IsMapped mmu cr3 w s canonical m)
