-- ===== src/Framebuffer/Draw/Texts.antt =====
-- What `draw_text` of src/drivers/framebuffer/framebuffer.c draws, with a font that is 8 pixels wide.
use potatos.Base.{
  ℕ, suc, ◌+◌, ◌*◌, ◌-◌, ◌≤◌, ◌<◌, ◌≡◌, refl, ◌∙◌, sym, ap, Bool, false, ◌&&◌, arith, if◌then◌else◌,
  ltb, leb, u32, Memory, IsBytes, some, List, [], ◌∷◌, length,
}
use mathlib.Core.Path.{subst}
use potatos.Text.Strings.{IsString, strlen_lem}
use potatos.Framebuffer.{Framebuffer, color}
use potatos.Framebuffer.Draw.{Font, draw_character, text_loop, draw_text}
use potatos.Framebuffer.Draw.Glyphs.{
  IsScreen, SameScreen, SameScreen-IsScreen, ink, Glyphed, draw_character_lem,
}

-- Does the text have the pixel `dx` columns and `dy` lines from its corner?
abbrev pub written : Font → List ℕ → (dx dy : ℕ) → Bool
written font [] dx dy = false
written font (ch ∷ chs) dx dy = if ltb dx 8 then ink font ch dx dy else written font chs (dx - 8) dy

module _ (font : Font) (r g b : ℕ) (bytes : IsBytes font.bytes) (eight : font.width ≡ 8) where
  -- `t` shows the text with its corner at `cx` and `cy`, and else what `s` shows.
  abbrev pub Texted : List ℕ → (cx cy w : ℕ) → Framebuffer → Framebuffer → Type 0
  Texted chs cx cy w s t =
      SameScreen s t
      × ((x' y' : ℕ)
          → x' < w
          → t.buffer (y' * w + x') ≡ (
              if leb cy y'
                && ltb y' (cy + font.height)
                && (leb cx x' && written font chs (x' - cx) (y' - cy))
              then color r g b
              else s.buffer (y' * w + x')))

  pub text_step :
      (left i cx cy : ℕ) (m : Memory) (text ch a : ℕ) (s : Framebuffer)
      → m (text + i) ≡ ch
      → u32 (cx + u32 (i * 8)) ≡ a
      → text_loop font r g b (suc left) i cx cy m text s
        ≡ text_loop font r g b left (i + 1) cx cy m text (draw_character font r g b ch a cy s)
  unfolding text_loop
  text_step left i cx cy m text ch a s char column = rw (text_loop, eight, char, column) refl

  text_loop-Texted :
      (chs : List ℕ) (i cx cy a : ℕ) (m : Memory) (text at : ℕ) (s : Framebuffer) (w : ℕ)
      → text + i ≡ at
      → IsString m at chs
      → a ≡ cx + i * 8
      → IsScreen s
      → s.width ≡ w
      → a + length chs * 8 ≤ w
      → cy + font.height ≤ s.height
      → Texted chs a cy w s (text_loop font r g b (length chs) i cx cy m text s)
  unfolding text_loop
  text_loop-Texted [] i cx cy a m text at s w here string column screen wide fits low =
      ((refl, refl, refl), λ x' y' h. ground arith)
  text_loop-Texted (ch ∷ chs) i cx cy a m text at s w here string column screen wide fits low =
      let t = draw_character font r g b ch a cy s in
      let first =
        subst (λ v. Glyphed font r g b bytes ch 0 a cy v s t) wide
          (draw_character_lem font r g b bytes eight ch a cy s screen (omega arith) low) in
      let rest =
        text_loop-Texted chs (i + 1) cx cy (a + 8) m text (at + 1) t w (omega arith) string.2
          (omega arith) (SameScreen-IsScreen s t first.0 screen) (first.0.0 ∙ wide) (omega arith)
          (omega (arith, first.0.1)) in
      subst (Texted (ch ∷ chs) a cy w s)
        (sym (
          text_step (length chs) i cx cy m text ch a s (ap m here ∙ string.0)
            (omega (arith, screen.1))))
        (
          (rest.0.0 ∙ first.0.0, rest.0.1 ∙ first.0.1, rest.0.2 ∙ first.0.2),
          λ x' y' h.
              let k : x' - a - 8 ≡ x' - (a + 8) = omega arith in
              rest.1 x' y' h
              ∙ ground (arith, first.1 x' y' h, ap (λ u. written font chs u (y' - cy)) k),
        )

  -- `draw_text` of a string returns, with more fuel than characters and with a font 8 pixels wide,
  -- where the text is on the screen: each character's glyph is drawn in the color, 8 columns behind the
  -- one before, no other pixel changes, and what is on the screen stays.
  pub draw_text_lem :
      (chs : List ℕ) (fuel cx cy : ℕ) (m : Memory) (text : ℕ) (s : Framebuffer)
      → IsString m text chs
      → length chs < fuel
      → IsScreen s
      → cx + length chs * 8 ≤ s.width
      → cy + font.height ≤ s.height
      → (t : Framebuffer) × (draw_text font r g b fuel cx cy m text s ≡ some t)
        × Texted chs cx cy s.width s t
  unfolding draw_text
  draw_text_lem chs fuel cx cy m text s string enough screen fits low = (
    text_loop font r g b (length chs) 0 cx cy m text s,
    rw (draw_text, strlen_lem chs fuel m text string enough) refl,
    text_loop-Texted chs 0 cx cy cx m text text s s.width (omega arith) string (omega arith) screen
        refl fits low,
  )
