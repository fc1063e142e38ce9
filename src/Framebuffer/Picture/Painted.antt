-- ===== src/Framebuffer/Picture/Painted.antt =====
-- What `draw_background_image` of src/drivers/framebuffer/framebuffer.c draws.
use potatos.Base.{
  ℕ, zero, suc, ◌+◌, ◌*◌, ◌/◌, ◌≤◌, ◌<◌, ◌≡◌, refl, ◌∙◌, sym, ap, true, Bool-cases, inl, inr, ◌&&◌,
  ◌==◌, arith, if◌then◌else◌, ltb, leb, u32, Memory,
}
use mathlib.Core.Path.{subst}
use potatos.Framebuffer.{Framebuffer, color, plot_pixel}
use potatos.Framebuffer.Draw.Glyphs.{IsScreen, SameScreen, SameScreen-IsScreen, plot_at}
use potatos.Framebuffer.Picture.{
  header_pixel, plot_four, column_loop, row_loop, draw_background_image,
}
use potatos.Framebuffer.Picture.Codes.{Codes, header_pixel_lem}

-- `t` shows the pixel `x`, `y` of the picture, and else what `s` shows.
abbrev Four : (x y value w : ℕ) → Framebuffer → Framebuffer → Type 0
Four x y value w s t =
    SameScreen s t
    × ((x' y' : ℕ)
        → x' < w
        → t.buffer (y' * w + x')
          ≡ (if (x' / 2 == x) && (y' / 2 == y) then value else s.buffer (y' * w + x')))

-- The four pixels in turn.
four_values :
    (x y x' y' value v0 v1 v2 v3 v4 : ℕ)
    → v1 ≡ (if (x * 2 == x') && (y * 2 == y') then value else v0)
    → v2 ≡ (if (x * 2 + 1 == x') && (y * 2 == y') then value else v1)
    → v3 ≡ (if (x * 2 == x') && (y * 2 + 1 == y') then value else v2)
    → v4 ≡ (if (x * 2 + 1 == x') && (y * 2 + 1 == y') then value else v3)
    → v4 ≡ (if (x' / 2 == x) && (y' / 2 == y) then value else v0)
four_values x y x' y' value v0 v1 v2 v3 v4 first second third fourth = ground arith

plot_four-Four :
    (x y r g b w : ℕ) (s : Framebuffer)
    → IsScreen s
    → s.width ≡ w
    → 800 ≤ w
    → 600 ≤ s.height
    → x < 400
    → y < 300
    → Four x y (color r g b) w s (plot_four x y (r, g, b) s)
unfolding plot_four plot_pixel
plot_four-Four x y r g b w s screen wide columns lines hx hy =
    let left : u32 (x * 2) ≡ x * 2 = omega arith in
    let right : u32 (x * 2 + 1) ≡ x * 2 + 1 = omega arith in
    let upper : u32 (y * 2) ≡ y * 2 = omega arith in
    let lower : u32 (y * 2 + 1) ≡ y * 2 + 1 = omega arith in
    let s1 = plot_pixel (x * 2) (y * 2) r g b s in
    let s2 = plot_pixel (x * 2 + 1) (y * 2) r g b s1 in
    let s3 = plot_pixel (x * 2) (y * 2 + 1) r g b s2 in
    rw (left, right, upper, lower)
      (
        (refl, refl, refl),
        λ x' y' h.
            four_values x y x' y' (color r g b) (s.buffer (y' * w + x')) (s1.buffer (y' * w + x'))
              (s2.buffer (y' * w + x')) (s3.buffer (y' * w + x')) _
              (plot_at (x * 2) (y * 2) x' y' w r g b s screen.0 wide (omega arith) (omega arith) h)
              (plot_at (x * 2 + 1) (y * 2) x' y' w r g b s1 screen.0 wide (omega arith)
                (omega arith) h)
              (plot_at (x * 2) (y * 2 + 1) x' y' w r g b s2 screen.0 wide (omega arith)
                (omega arith) h)
              (plot_at (x * 2 + 1) (y * 2 + 1) x' y' w r g b s3 screen.0 wide (omega arith)
                (omega arith) h),
      )

-- The lines from `y` on are the line `y` and those behind it.
row_values :
    (y x' y' pixel now before : ℕ)
    → y < 300
    → now ≡ (if (y' / 2 == y) && (leb 0 (x' / 2) && ltb (x' / 2) 400) then pixel else before)
    → (if leb (y + 1) (y' / 2) && ltb (y' / 2) 300 && ltb (x' / 2) 400 then pixel else now)
      ≡ (if leb y (y' / 2) && ltb (y' / 2) 300 && ltb (x' / 2) 400 then pixel else before)
row_values y x' y' pixel now before low line = ground arith

picture_values :
    (x y pixel value before : ℕ)
    → (x / 2 < 400 → y / 2 < 300 → pixel ≡ value)
    → (if leb 0 (y / 2) && ltb (y / 2) 300 && ltb (x / 2) 400 then pixel else before)
      ≡ (if ltb x 800 && ltb y 600 then value else before)
picture_values x y pixel value before same = ground arith

abbrev color_of : ℕ × ℕ × ℕ → ℕ
color_of (r, g, b) = color r g b

-- The color of the picture's pixel, by its characters.
abbrev picture : (m : Memory) (header_data x y : ℕ) → ℕ
picture m header_data x y = color_of (header_pixel m (header_data + y * 1600 + x * 4))

module _ (m : Memory) (header_data w : ℕ) (columns : 800 ≤ w) where
  -- `t` shows the line `y` of the picture from its column `x` on, and else what `s` shows.
  abbrev Lined : (x y : ℕ) → Framebuffer → Framebuffer → Type 0
  Lined x y s t =
      SameScreen s t
      × ((x' y' : ℕ)
          → x' < w
          → t.buffer (y' * w + x') ≡ (
              if (y' / 2 == y) && (leb x (x' / 2) && ltb (x' / 2) 400)
              then picture m header_data (x' / 2) (y' / 2)
              else s.buffer (y' * w + x')))

  column_step :
      (left x y at : ℕ) (s : Framebuffer)
      → x < 400
      → y < 300
      → column_loop (suc left) x y at m s
        ≡ column_loop left (x + 1) y (at + 4) m (plot_four x y (header_pixel m at) s)
  unfolding column_loop
  column_step left x y at s hx hy =
      let inside : (ltb x 400 && ltb y 300) ≡ true = ground arith in
      ap
        (λ c.
          column_loop left (x + 1) y (at + 4) m
            (if c then plot_four x y (header_pixel m at) s else s))
        inside

  column_loop-Lined :
      (left x y at : ℕ) (s : Framebuffer)
      → x + left ≡ 400
      → y < 300
      → at ≡ header_data + y * 1600 + x * 4
      → IsScreen s
      → s.width ≡ w
      → 600 ≤ s.height
      → ((column_loop left x y at m s).0 ≡ header_data + (y + 1) * 1600)
        × Lined x y s (column_loop left x y at m s).1
  unfolding column_loop
  column_loop-Lined zero x y at s end hy place screen wide lines =
      (omega arith, ((refl, refl, refl), λ x' y' h. ground arith))
  column_loop-Lined (suc left) x y at s end hy place screen wide lines =
      let (r, g, b) = header_pixel m at in
      let t = plot_four x y (header_pixel m at) s in
      let four = plot_four-Four x y r g b w s screen wide columns lines (omega arith) hy in
      let rest =
        column_loop-Lined left (x + 1) y (at + 4) t (omega arith) hy (omega arith)
          (SameScreen-IsScreen s t four.0 screen) (four.0.0 ∙ wide) (omega (arith, four.0.1)) in
      subst (λ o. (o.0 ≡ header_data + (y + 1) * 1600) × Lined x y s o.1)
        (sym (column_step left x y at s (omega arith) hy))
        (
          rest.0,
          (
            (rest.1.0.0 ∙ four.0.0, rest.1.0.1 ∙ four.0.1, rest.1.0.2 ∙ four.0.2),
            λ x' y' h. rest.1.1 x' y' h ∙ elim (Bool-cases ((x' / 2 == x) && (y' / 2 == y))) [
              | inl here ↦
                  let spot : header_data + y' / 2 * 1600 + x' / 2 * 4 ≡ at = ground arith in
                  let same : picture m header_data (x' / 2) (y' / 2) ≡ color r g b =
                    ap (λ a. color_of (header_pixel m a)) spot in
                  ground (arith, four.1 x' y' h, same)
              | inr there ↦ ground (arith, four.1 x' y' h)
            ],
          ),
        )

  -- `t` shows the lines of the picture from `y` on, and else what `s` shows.
  abbrev Rows : (y : ℕ) → Framebuffer → Framebuffer → Type 0
  Rows y s t =
      SameScreen s t
      × ((x' y' : ℕ)
          → x' < w
          → t.buffer (y' * w + x') ≡ (
              if leb y (y' / 2) && ltb (y' / 2) 300 && ltb (x' / 2) 400
              then picture m header_data (x' / 2) (y' / 2)
              else s.buffer (y' * w + x')))

  row_loop-Rows :
      (left y at : ℕ) (s : Framebuffer)
      → y + left ≡ 300
      → at ≡ header_data + y * 1600
      → IsScreen s
      → s.width ≡ w
      → 600 ≤ s.height
      → Rows y s (row_loop left y at m s)
  unfolding row_loop
  row_loop-Rows zero y at s end place screen wide lines =
      ((refl, refl, refl), λ x' y' h. ground arith)
  row_loop-Rows (suc left) y at s end place screen wide lines =
      let t = (column_loop 400 0 y at m s).1 in
      let line =
        column_loop-Lined 400 0 y at s refl (omega arith) (omega arith) screen wide lines in
      let rest =
        row_loop-Rows left (y + 1) (column_loop 400 0 y at m s).0 t (omega arith) line.0
          (SameScreen-IsScreen s t line.1.0 screen) (line.1.0.0 ∙ wide)
          (omega (arith, line.1.0.1)) in
      (
        (rest.0.0 ∙ line.1.0.0, rest.0.1 ∙ line.1.0.1, rest.0.2 ∙ line.1.0.2),
        λ x' y' h. rest.1 x' y' h ∙ row_values y x' y' _ _ _ (omega arith) (line.1.1 x' y' h),
      )

-- `draw_background_image` on a screen of at least 800 by 600 pixels, with the characters that code
-- a picture of 400 by 300 pixels, shows each pixel of the picture as four, changes no pixel behind the
-- picture, and leaves what is on the screen.
pub draw_background_image_lem :
    (red green blue : ℕ → ℕ → ℕ) (m : Memory) (header_data : ℕ) (s : Framebuffer)
    → ((x y : ℕ)
        → x < 400
        → y < 300
        → Codes m (header_data + y * 1600 + x * 4) (red x y) (green x y) (blue x y))
    → IsScreen s
    → 800 ≤ s.width
    → 600 ≤ s.height
    → SameScreen s (draw_background_image header_data m s)
      × ((x y : ℕ)
          → x < s.width
          → (draw_background_image header_data m s).buffer (y * s.width + x) ≡ (
              if ltb x 800 && ltb y 600
              then color (red (x / 2) (y / 2)) (green (x / 2) (y / 2)) (blue (x / 2) (y / 2))
              else s.buffer (y * s.width + x)))
unfolding draw_background_image
draw_background_image_lem red green blue m header_data s codes screen columns lines =
    let rows =
      row_loop-Rows m header_data s.width columns 300 0 header_data s refl (omega arith) screen refl
        lines in
    (
      rows.0,
      λ x y h.
          rows.1 x y h
          ∙ picture_values x y _ _ _
              (λ k l. ap color_of (header_pixel_lem (codes (x / 2) (y / 2) k l))),
    )
