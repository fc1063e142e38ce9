-- ===== src/Bitmap/Sequence.antt =====
-- Any sequence of calls of `allocate_physical_page` and `set_page_free` (src/mem/bitmap.c) by clients
-- that give back only what they hold: a page is never handed out while somebody holds it.
use potatos.Base.{
  ℕ, ◌+◌, ◌-◌, ◌*◌, ◌/◌, ◌≤◌, ◌<◌, ◌≡◌, ◌≢◌, refl, false, arith, ◌==◌, if◌then◌else◌, page_size,
  List, [], ◌∷◌,
}
use potatos.Bitmap.{Bitmap, is_page_free, set_page_free, allocate_physical_page}
use potatos.Bitmap.Pages.{
  IsBitmap, set_page_used-IsBitmap, set_page_free-IsBitmap, set_page_used_lem, set_page_free_lem,
  total_pages-set_page_used, total_pages-set_page_free,
}
use potatos.Bitmap.Allocate.{Allocation, exhausted, lowest, allocate_physical_page-Allocation}

abbrev pub count : ℕ → List ℕ → ℕ
count p [] = 0
count p (q ∷ qs) = (if p == q then 1 else 0) + count p qs

-- without the first occurrence of `p`
abbrev pub remove : ℕ → List ℕ → List ℕ
remove p [] = []
remove p (q ∷ qs) = if p == q then qs else q ∷ remove p qs

-- The bitmap and the numbers of the pages that clients hold.
pub record Owners : Type 0 where
  pub map : Bitmap
  pub live : List ℕ

pub data Step : Owners → Owners → Type 0 where
  take :
      (s : Owners)
      → (allocate_physical_page s.map).0 ≢ 0
      → Step s (record {
        map = (allocate_physical_page s.map).1;
        live = (allocate_physical_page s.map).0 / page_size ∷ s.live;
      })
  refuse :
      (s : Owners)
      → (allocate_physical_page s.map).0 ≡ 0
      → Step s (record s { map = (allocate_physical_page s.map).1 })
  give :
      (s : Owners) (p : ℕ)
      → 0 < count p s.live
      → Step s (record { map = set_page_free s.map p; live = remove p s.live })

pub data Reach (s : Owners) : Owners → Type 0 where
  here : Reach s s
  next : {t u : Owners} → Reach s t → Step t u → Reach s u

-- Page 0 is used and held by nobody, so that the address 0 can mean failure. What is held is held
-- once, exists and is marked used.
pub record IsOwned (s : Owners) : Type 0 where
  pub bitmap : IsBitmap s.map
  pub reserved : is_page_free s.map 0 ≡ false
  pub unheld : count 0 s.live ≡ 0
  pub once : (p : ℕ) → count p s.live ≤ 1
  pub exists : (p : ℕ) → 0 < count p s.live → p < s.map.total_pages
  pub used : (p : ℕ) → 0 < count p s.live → is_page_free s.map p ≡ false

count-remove :
    (p q : ℕ) (xs : List ℕ) → count q (remove p xs) ≡ count q xs - (if p == q then 1 else 0)
count-remove p q [] = ground arith
count-remove p q (x ∷ xs) = ground (arith, count-remove p q xs)

give-IsOwned :
    {s : Owners} (p : ℕ)
    → 0 < count p s.live
    → IsOwned s
    → IsOwned (record { map = set_page_free s.map p; live = remove p s.live })
give-IsOwned {s} p h v = record {
  bitmap = set_page_free-IsBitmap p v.bitmap;
  reserved = ground (arith, set_page_free_lem p 0 v.bitmap);
  unheld = ground (arith, count-remove p 0 s.live);
  once = λ q. ground (arith, count-remove p q s.live, v.once q);
  exists =
      λ q l. ground (arith, count-remove p q s.live, v.exists q, total_pages-set_page_free s.map p);
  used = λ q l.
      ground (arith, count-remove p q s.live, v.once q, v.used q, set_page_free_lem p q v.bitmap);
}

-- What `take` and `refuse` lead to, by what the allocation found.
After : Owners → ℕ × Bitmap → Type 0
After s r =
    (r.0 ≢ 0 → IsOwned (record { map = r.1; live = r.0 / page_size ∷ s.live }))
    × (r.0 ≡ 0 → IsOwned (record s { map = r.1 }))

allocate-After : {s : Owners} {r : ℕ × Bitmap} → IsOwned s → Allocation s.map 0 r → After s r
unfolding After
allocate-After v (exhausted h) = (λ n. absurd (n refl), λ e. v)
allocate-After {s} v (lowest p a l f h) = (
  λ n.
      let here : p * page_size / page_size ≡ p = omega arith in
      rw here (record {
        bitmap = set_page_used-IsBitmap p v.bitmap;
        reserved = ground (arith, set_page_used_lem p 0 v.bitmap);
        unheld = ground arith;
        once = λ q. ground (arith, v.once q, v.used q);
        exists = λ q k. ground (arith, v.exists q, total_pages-set_page_used s.map p);
        used = λ q k. ground (arith, v.used q, set_page_used_lem p q v.bitmap);
      }),
  λ e. absurd (let z : p ≡ 0 = omega arith in ground arith),
)

Step-IsOwned : {s t : Owners} → Step s t → IsOwned s → IsOwned t
unfolding After
Step-IsOwned (take s h) v = (allocate-After v (allocate_physical_page-Allocation v.bitmap)).0 h
Step-IsOwned (refuse s h) v = (allocate-After v (allocate_physical_page-Allocation v.bitmap)).1 h
Step-IsOwned (give s p h) v = give-IsOwned p h v

-- From a state in which the pages that clients hold are held once and marked used, and page 0 is
-- used and held by nobody, every sequence of allocations and of releases of held pages leads to such
-- a state.
pub Reach-IsOwned : {s t : Owners} → IsOwned s → Reach s t → IsOwned t
Reach-IsOwned v here = v
Reach-IsOwned v (next r st) = Step-IsOwned st (Reach-IsOwned v r)
