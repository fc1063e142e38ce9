-- ===== src/Framebuffer/Draw/Blank.antt =====
-- Characters without a pixel, such as a space: src/drivers/framebuffer/framebuffer.c draws nothing.
use potatos.Base.{
  ℕ, zero, suc, ◌+◌, ◌*◌, ◌-◌, ◌^◌, ◌≤◌, ◌<◌, ◌≡◌, refl, ◌∙◌, ap, false, true, arith, bit_clear,
  Memory, IsBytes, some, List, [], ◌∷◌, length,
}
use native.Mathlib.Nat.{pow-suc, pow-le-pow_right}
use potatos.Text.Strings.{IsString, strlen_lem}
use potatos.Framebuffer.{Framebuffer}
use potatos.Framebuffer.Draw.{
  Font, glyph_of, shift_right, line_loop, glyph_loop, draw_character, text_loop, draw_text,
}
use potatos.Framebuffer.Draw.Glyphs.{ink, mask, line_step, glyph_step}
use potatos.Framebuffer.Draw.Texts.{written, text_step}

-- No character of the text has a pixel.
abbrev pub Inkless : Font → List ℕ → Type 0
Inkless font [] = Unit {0}
Inkless font (ch ∷ chs) =
    ((dx dy : ℕ) → dx < 8 → dy < font.height → ink font ch dx dy ≡ false) × Inkless font chs

pub Inkless-written :
    (font : Font) (chs : List ℕ) (dx dy : ℕ)
    → Inkless font chs
    → dy < font.height
    → written font chs dx dy ≡ false
Inkless-written font [] dx dy empty low = refl
Inkless-written font (ch ∷ chs) dx dy empty low =
    ground (arith, empty.0 dx dy, Inkless-written font chs (dx - 8) dy empty.1 low)

module _ (font : Font) (r g b : ℕ) (bytes : IsBytes font.bytes) (eight : font.width ≡ 8) where
  line_loop-blank :
      (left x m glyph cx line : ℕ) (s : Framebuffer)
      → x + left ≡ 8
      → m ≡ mask left
      → cx + 8 ≤ 2 ^ 32
      → ((dx : ℕ) → dx < 8 → bit_clear (font.bytes glyph) (7 - dx) ≡ true)
      → line_loop font r g b left x m glyph cx line s ≡ s
  unfolding line_loop
  line_loop-blank zero x m glyph cx line s at is_mask fits clear = refl
  line_loop-blank (suc left) x m glyph cx line s at is_mask fits clear =
      let here : m ≡ 2 ^ left = omega (arith, pow-suc 2 left) in
      let next : shift_right m ≡ mask left =
        ground (arith, pow-le-pow_right {n = 2} (omega arith) {i = left} {j = 7} (omega arith)) in
      let column : 7 - x ≡ left = omega arith in
      let blank : bit_clear (font.bytes glyph) left ≡ true =
        rw (← column) (clear x (omega arith)) in
      line_step font r g b bytes left x m glyph cx line s (omega arith) here (omega arith)
      ∙ rw blank (
          line_loop-blank left (x + 1) (shift_right m) glyph cx line s (omega arith) next fits
            clear)

  glyph_loop-blank :
      (left y glyph ch cx cy : ℕ) (s : Framebuffer)
      → y + left ≡ font.height
      → glyph ≡ glyph_of font ch + y
      → cx + 8 ≤ 2 ^ 32
      → cy + font.height < 2 ^ 32
      → ((dx dy : ℕ) → dx < 8 → dy < font.height → ink font ch dx dy ≡ false)
      → glyph_loop font r g b left y glyph cx cy s ≡ s
  unfolding glyph_loop
  glyph_loop-blank zero y glyph ch cx cy s at place fits low empty = refl
  glyph_loop-blank (suc left) y glyph ch cx cy s at place fits low empty =
      let line =
        line_loop-blank 8 0 128 glyph cx (cy + y) s refl refl fits
          (λ dx h. rw place (ground (arith, empty dx y h (omega arith)))) in
      glyph_step font r g b bytes eight left y glyph cx cy s (omega arith)
      ∙ ap (glyph_loop font r g b left (y + 1) (glyph + 1) cx cy) line
      ∙ glyph_loop-blank left (y + 1) (glyph + 1) ch cx cy s (omega arith) (omega arith) fits low
          empty

  text_loop-blank :
      (chs : List ℕ) (i cx cy a : ℕ) (m : Memory) (text at : ℕ) (s : Framebuffer)
      → text + i ≡ at
      → IsString m at chs
      → a ≡ cx + i * 8
      → a + length chs * 8 ≤ 2 ^ 32
      → cy + font.height < 2 ^ 32
      → Inkless font chs
      → text_loop font r g b (length chs) i cx cy m text s ≡ s
  unfolding text_loop draw_character
  text_loop-blank [] i cx cy a m text at s here string column fits low empty = refl
  text_loop-blank (ch ∷ chs) i cx cy a m text at s here string column fits low empty =
      let glyph =
        glyph_loop-blank font.height 0 (glyph_of font ch) ch a cy s (omega arith) (omega arith)
          (omega arith) low empty.0 in
      text_step font r g b bytes eight (length chs) i cx cy m text ch a s (ap m here ∙ string.0)
        (omega arith)
      ∙ ap (text_loop font r g b (length chs) (i + 1) cx cy m text) glyph
      ∙ text_loop-blank chs (i + 1) cx cy (a + 8) m text (at + 1) s (omega arith) string.2
          (omega arith) (omega arith) low empty.1

  -- `draw_text` of such a text returns and changes nothing, wherever it stands.
  pub draw_text-blank :
      (chs : List ℕ) (fuel cx cy : ℕ) (m : Memory) (text : ℕ) (s : Framebuffer)
      → IsString m text chs
      → length chs < fuel
      → cx + length chs * 8 ≤ 2 ^ 32
      → cy + font.height < 2 ^ 32
      → Inkless font chs
      → draw_text font r g b fuel cx cy m text s ≡ some s
  unfolding draw_text
  draw_text-blank chs fuel cx cy m text s string enough fits low empty =
      rw (draw_text, strlen_lem chs fuel m text string enough)
        (ap some (
          text_loop-blank chs 0 cx cy cx m text text s (omega arith) string (omega arith) fits low
            empty))
