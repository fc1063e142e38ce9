-- ===== src/Framebuffer/Draw/Glyphs.antt =====
-- What `draw_character` and `draw_text` of src/drivers/framebuffer/framebuffer.c draw, with a font that
-- is 8 pixels wide.
use potatos.Base.{
  ℕ, zero, suc, ◌+◌, ◌*◌, ◌-◌, ◌/◌, ◌^◌, ◌≤◌, ◌<◌, ◌≡◌, refl, ◌∙◌, sym, ap, inl, inr, Bool, ◌&&◌,
  not, arith, Bool-cases, ◌==◌, if◌then◌else◌, ltb, leb, bit_and, bit_clear, bit_and_parts,
  bit_and-zero, u32, Memory, IsBytes, read_bytes,
}
use mathlib.Core.Path.{subst}
use native.Mathlib.Nat.{pow-suc, pow-le-pow_right}
use potatos.Framebuffer.{Framebuffer, color, plot_pixel}
use potatos.Framebuffer.Fill.{plot_pixel_lem}
use potatos.Framebuffer.Draw.{Font, shift_right, glyph_of, line_loop, glyph_loop, draw_character}

-- The size of the screen fits the types of the source.
abbrev pub IsScreen : Framebuffer → Type 0
IsScreen s = (s.width * s.height < 2 ^ 32) × (s.width < 2 ^ 32) × (s.height < 2 ^ 32)

-- The pixel in column `x` of line `y`.
abbrev pub shown : Framebuffer → ℕ → ℕ → ℕ
shown s x y = s.buffer (y * s.width + x)

-- The size and what is on the screen are as before.
abbrev pub SameScreen : Framebuffer → Framebuffer → Type 0
SameScreen s t = (t.width ≡ s.width) × (t.height ≡ s.height) × (t.screen ≡ s.screen)

pub SameScreen-IsScreen : (s t : Framebuffer) → SameScreen s t → IsScreen s → IsScreen t
SameScreen-IsScreen s t same v = rw (same.0, same.1) v

-- Does the font's glyph have the pixel in column `dx`, bit 7 - `dx`, of its line `dy`?
abbrev pub ink : Font → (ch dx dy : ℕ) → Bool
ink font ch dx dy = not (bit_clear (font.bytes (glyph_of font ch + dy)) (7 - dx))

-- A bit of the first byte of a word.
low_bit :
    (n : ℕ) (m : Memory) (a k : ℕ)
    → m a < 256
    → k < 8
    → bit_and (read_bytes (suc n) m a) (2 ^ k) ≡ bit_and (m a) (2 ^ k)
unfolding read_bytes
low_bit n m a k byte low =
    let word = read_bytes n m (a + 1) in
    let e : m a + 256 * word ≡ word * 2 ^ 8 + m a = omega arith in
    let small : 2 ^ k < 2 ^ 8 =
      omega (arith, pow-le-pow_right {n = 2} (omega arith) {i = k} {j = 7} (omega arith)) in
    let parts = bit_and_parts 8 word 0 (m a) (2 ^ k) byte small in
    let zeros = bit_and-zero word in
    ap (λ u. bit_and u (2 ^ k)) e
    ∙ ap (bit_and (word * 2 ^ 8 + m a)) (omega arith)
    ∙ parts
    ∙ omega (arith, zeros)

-- `plot_pixel_lem` on a screen of `w` columns.
pub plot_at :
    (x y x' y' w r g b : ℕ) (s : Framebuffer)
    → s.width * s.height < 2 ^ 32
    → s.width ≡ w
    → x < w
    → y < s.height
    → x' < w
    → (plot_pixel x y r g b s).buffer (y' * w + x')
      ≡ (if (x == x') && (y == y') then color r g b else s.buffer (y' * w + x'))
plot_at x y x' y' w r g b s bound wide =
    subst
      (λ a.
        x < a
        → y < s.height
        → x' < a
        → (plot_pixel x y r g b s).buffer (y' * a + x')
          ≡ (if (x == x') && (y == y') then color r g b else s.buffer (y' * a + x')))
      wide (plot_pixel_lem x y r g b x' y' s bound)

-- The mask with which a line ends, `left` pixels from its end, and what becomes of it.
abbrev pub mask : ℕ → ℕ
mask left = 2 ^ left / 2

module _ (font : Font) (r g b : ℕ) (bytes : IsBytes font.bytes) where
  -- `t` shows a line of a glyph, the byte `row`, from its column `x` to its end, and else what `s` shows.
  abbrev Lined : (row x cx line w : ℕ) → Framebuffer → Framebuffer → Type 0
  Lined row x cx line w s t =
      SameScreen s t
      × ((x' y' : ℕ)
          → x' < w
          → t.buffer (y' * w + x') ≡ (
              if (y' == line)
                && (leb (cx + x) x' && ltb x' (cx + 8))
                && not (bit_clear row (7 - (x' - cx)))
              then color r g b
              else s.buffer (y' * w + x')))

  -- One round, at a column whose mask is `2 ^ left`.
  pub line_step :
      (left x m glyph cx line : ℕ) (s : Framebuffer)
      → left < 8
      → m ≡ 2 ^ left
      → cx + x < 2 ^ 32
      → line_loop font r g b (suc left) x m glyph cx line s
        ≡ line_loop font r g b left
            (x + 1)
            (shift_right m)
            glyph
            cx
            line
            (if bit_clear (font.bytes glyph) left then s else plot_pixel (cx + x) line r g b s)
  unfolding line_loop
  line_step left x m glyph cx line s low here fits =
      let place : u32 (cx + x) ≡ cx + x = omega arith in
      let bit : bit_and (read_bytes 4 font.bytes glyph) m ≡ bit_and (font.bytes glyph) (2 ^ left) =
        ap (bit_and (read_bytes 4 font.bytes glyph)) here
        ∙ low_bit 3 font.bytes glyph left (bytes glyph) low in
      ap
        (λ u.
          line_loop font r g b left (x + 1) (shift_right m) glyph cx line
            (if u == 0 then s else plot_pixel (u32 (cx + x)) line r g b s))
        bit
      ∙ ap
          (λ u.
            line_loop font r g b left (x + 1) (shift_right m) glyph cx line
              (if bit_clear (font.bytes glyph) left then s else plot_pixel u line r g b s))
          place

  line_loop-Lined :
      (left x m glyph cx line w : ℕ) (s : Framebuffer)
      → x + left ≡ 8
      → m ≡ mask left
      → IsScreen s
      → s.width ≡ w
      → cx + 8 ≤ w
      → line < s.height
      → Lined (font.bytes glyph) x cx line w s (line_loop font r g b left x m glyph cx line s)
  unfolding line_loop plot_pixel
  line_loop-Lined zero x m glyph cx line w s at is_mask screen wide fits low =
      ((refl, refl, refl), λ x' y' h. ground arith)
  line_loop-Lined (suc left) x m glyph cx line w s at is_mask screen wide fits low =
      let row = font.bytes glyph in
      let here : m ≡ 2 ^ left = omega (arith, pow-suc 2 left) in
      let column : left ≡ 7 - x = omega arith in
      let next : shift_right m ≡ mask left =
        ground (arith, pow-le-pow_right {n = 2} (omega arith) {i = left} {j = 7} (omega arith)) in
      let step = line_step left x m glyph cx line s (omega arith) here (omega (arith, screen.1)) in
      subst (Lined row x cx line w s) (sym step) (elim (Bool-cases (bit_clear row left)) [
        | inl blank ↦
            let rest =
              line_loop-Lined left (x + 1) (shift_right m) glyph cx line w s (omega arith) next
                screen wide fits low in
            rw blank (
              rest.0,
              λ x' y' h. elim (Bool-cases (x' == cx + x)) [
                | inl same ↦
                    let k : 7 - (x' - cx) ≡ left = ground arith in
                    rest.1 x' y' h ∙ rw (k, blank) (ground arith)
                | inr other ↦ rest.1 x' y' h ∙ ground arith
              ],
            )
        | inr inked ↦
            let rest =
              line_loop-Lined left (x + 1) (shift_right m) glyph cx line w
                (plot_pixel (cx + x) line r g b s) (omega arith) next screen wide fits low in
            rw inked (
              rest.0,
              λ x' y' h.
                  let plot =
                    plot_at (cx + x) line x' y' w r g b s screen.0 wide (omega arith) low h in
                  elim (Bool-cases (x' == cx + x)) [
                    | inl same ↦
                        let k : 7 - (x' - cx) ≡ left = ground arith in
                        rest.1 x' y' h ∙ rw (k, inked) (ground (arith, plot))
                    | inr other ↦ rest.1 x' y' h ∙ ground (arith, plot)
                  ],
            )
      ])

  -- `t` shows the lines from `y` on of the glyph of `ch`, and else what `s` shows.
  abbrev pub Glyphed : (ch y cx cy w : ℕ) → Framebuffer → Framebuffer → Type 0
  Glyphed ch y cx cy w s t =
      SameScreen s t
      × ((x' y' : ℕ)
          → x' < w
          → t.buffer (y' * w + x') ≡ (
              if leb (cy + y) y'
                && ltb y' (cy + font.height)
                && (leb cx x' && ltb x' (cx + 8))
                && ink font ch (x' - cx) (y' - cy)
              then color r g b
              else s.buffer (y' * w + x')))

  module _ (eight : font.width ≡ 8) where
    pub glyph_step :
        (left y glyph cx cy : ℕ) (s : Framebuffer)
        → cy + y < 2 ^ 32
        → glyph_loop font r g b (suc left) y glyph cx cy s
          ≡ glyph_loop font r g b left
              (y + 1)
              (glyph + 1)
              cx
              cy
              (line_loop font r g b 8 0 128 glyph cx (cy + y) s)
    unfolding glyph_loop
    glyph_step left y glyph cx cy s fits =
        let line : u32 (cy + y) ≡ cy + y = omega arith in rw (glyph_loop, eight, line) refl

    glyph_loop-Glyphed :
        (left y glyph ch cx cy w : ℕ) (s : Framebuffer)
        → y + left ≡ font.height
        → glyph ≡ glyph_of font ch + y
        → IsScreen s
        → s.width ≡ w
        → cx + 8 ≤ w
        → cy + font.height ≤ s.height
        → Glyphed ch y cx cy w s (glyph_loop font r g b left y glyph cx cy s)
    unfolding glyph_loop
    glyph_loop-Glyphed zero y glyph ch cx cy w s at place screen wide fits low =
        ((refl, refl, refl), λ x' y' h. ground arith)
    glyph_loop-Glyphed (suc left) y glyph ch cx cy w s at place screen wide fits low =
        let t = line_loop font r g b 8 0 128 glyph cx (cy + y) s in
        let line =
          line_loop-Lined 8 0 128 glyph cx (cy + y) w s refl refl screen wide fits (omega arith) in
        let rest =
          glyph_loop-Glyphed left (y + 1) (glyph + 1) ch cx cy w t (omega arith) (omega arith)
            (SameScreen-IsScreen s t line.0 screen) (line.0.0 ∙ wide) fits
            (omega (arith, line.0.1)) in
        subst (Glyphed ch y cx cy w s)
          (sym (glyph_step left y glyph cx cy s (omega (arith, screen.2))))
          (
            (rest.0.0 ∙ line.0.0, rest.0.1 ∙ line.0.1, rest.0.2 ∙ line.0.2),
            λ x' y' h.
                let behind : glyph_of font ch + y ≡ glyph = sym place in
                elim (Bool-cases (y' == cy + y)) [
                  | inl same ↦
                      let k : glyph_of font ch + (y' - cy) ≡ glyph = ground arith in
                      rest.1 x' y' h ∙ rw k (ground (arith, line.1 x' y' h))
                  | inr other ↦ rest.1 x' y' h ∙ ground (arith, line.1 x' y' h)
                ],
          )

    -- `draw_character` with a font 8 pixels wide, where the cell is on the screen, draws the pixels of
    -- the character's glyph in the color, and changes no other pixel and not what is on the screen.
    pub draw_character_lem :
        (ch cx cy : ℕ) (s : Framebuffer)
        → IsScreen s
        → cx + 8 ≤ s.width
        → cy + font.height ≤ s.height
        → Glyphed ch 0 cx cy s.width s (draw_character font r g b ch cx cy s)
    unfolding draw_character
    draw_character_lem ch cx cy s screen fits low =
        glyph_loop-Glyphed font.height 0 (glyph_of font ch) ch cx cy s.width s (omega arith)
          (omega arith) screen refl fits low
