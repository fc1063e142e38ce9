-- ===== src/Framebuffer/Tests.antt =====
-- Tests of the framebuffer, on a screen of 4 by 2 pixels.
use potatos.Base.{
  inl, ◌+◌, ◌*◌, ◌&&◌, ℕ, ◌≡◌, some, ltb, if◌then◌else◌, arith, refl, leb, ◌<◌, ◌∷◌, [], Memory,
  IsBytes,
}
use potatos.Framebuffer.{Framebuffer, color, clear_framebuffer}
use potatos.Framebuffer.Fill.{reach, clear_framebuffer_lem}
use potatos.Framebuffer.Draw.{Font, draw_text, draw_vga_buffer}
use potatos.Framebuffer.Draw.Glyphs.{SameScreen}
use potatos.Framebuffer.Draw.Texts.{Texted, draw_text_lem}
use potatos.Framebuffer.Draw.Screen.{Lettered, draw_vga_buffer_lem}
use potatos.Framebuffer.Picture.{draw_background_image}
use potatos.Framebuffer.Picture.Painted.{draw_background_image_lem}

abbrev small : Framebuffer
small = record { width = 4; height = 2; buffer = λ i. i; screen = λ i. 0 }

clear_framebuffer_lem_example :
    (s' : Framebuffer) × (clear_framebuffer 3 128 27 26 small ≡ some s')
    × (s'.screen ≡ small.screen)
    × ((x : ℕ) → s'.buffer x ≡ (if ltb x (reach 8) then color 128 27 26 else x))
clear_framebuffer_lem_example = clear_framebuffer_lem 3 128 27 26 small (omega arith) (omega arith)

-- A font of two characters of 8 by 2 pixels, the second of which is a box.
abbrev boxes : Font
boxes = record {
  headersize = 32;
  numglyph = 2;
  bytesperglyph = 2;
  height = 2;
  width = 8;
  bytes = λ a. if leb 34 a then 255 else 0;
}

boxes-IsBytes : IsBytes boxes.bytes
boxes-IsBytes a = ground arith

-- Two boxes, as a string at 5.
abbrev two_boxes : Memory
two_boxes = λ a. if leb 5 a && ltb a 7 then 1 else 0

abbrev wide : Framebuffer
wide = record { width = 16; height = 40; buffer = λ i. 0; screen = λ i. 0 }

draw_text_lem_example :
    (t : Framebuffer) × (draw_text boxes 9 8 7 3 0 6 two_boxes 5 wide ≡ some t)
    × Texted boxes 9 8 7 boxes-IsBytes refl (1 ∷ 1 ∷ []) 0 6 16 wide t
draw_text_lem_example =
    draw_text_lem boxes 9 8 7 boxes-IsBytes refl (1 ∷ 1 ∷ []) 3 0 6 two_boxes 5 wide
      (refl, omega arith, (refl, omega arith, refl)) (omega arith)
      (omega arith, omega arith, omega arith) (omega arith) (omega arith)

-- A text screen of one line of two boxes in light gray.
draw_vga_buffer_lem_example :
    (t : Framebuffer) × (draw_vga_buffer boxes 3 2 1 (λ i. 7 * 256 + 1) (λ a. 9) wide ≡ some t)
    × Lettered boxes boxes-IsBytes refl (omega arith) 2 1 (λ i. 7 * 256 + 1) 0 16 wide t
draw_vga_buffer_lem_example =
    draw_vga_buffer_lem boxes boxes-IsBytes refl (omega arith) 2 1 (λ i. 7 * 256 + 1) 3 (λ a. 9)
      wide (omega arith) (omega arith) (omega arith, omega arith, omega arith) (omega arith)
      (omega arith) (λ k h. inl (omega arith))

abbrev large : Framebuffer
large = record { width = 800; height = 600; buffer = λ i. 0; screen = λ i. 0 }

-- A white picture.
draw_background_image_lem_example :
    SameScreen large (draw_background_image 7 (λ a. 96) large)
    × ((x y : ℕ)
        → x < 800
        → (draw_background_image 7 (λ a. 96) large).buffer (y * 800 + x)
          ≡ (if ltb x 800 && ltb y 600 then color 255 255 255 else 0))
draw_background_image_lem_example =
    draw_background_image_lem (λ x y. 255) (λ x y. 255) (λ x y. 255) (λ a. 96) 7 large
      (λ x y h k. record {
        red_small = omega arith;
        green_small = omega arith;
        blue_small = omega arith;
        first = refl;
        second = refl;
        third = refl;
        fourth = refl;
      })
      (omega arith, omega arith, omega arith) (omega arith) (omega arith)
