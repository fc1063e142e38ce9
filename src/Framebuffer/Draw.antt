-- ===== src/Framebuffer/Draw.antt =====
-- The drawing functions of src/drivers/framebuffer/framebuffer.c. An `int` is its bit pattern.
pub mod Glyphs
pub mod Texts
pub mod Blank
pub mod Screen
use potatos.Base.{
  ℕ, zero, suc, ◌+◌, ◌*◌, ◌-◌, ◌/◌, ◌%◌, ◌^◌, Option, none, some, ◌==◌, ◌&&◌, if◌then◌else◌, ltb,
  bit_and, u8, u32, int_index, Memory, write8, read_bytes,
}
use potatos.Text.{strlen}
use potatos.Framebuffer.{Framebuffer, plot_pixel}

-- `PSF_font`, and in `bytes` the bytes of the font's file from `_binary_font_psf_start` on.
pub record Font : Type 0 where
  pub headersize : ℕ
  pub numglyph : ℕ
  pub bytesperglyph : ℕ
  pub height : ℕ
  pub width : ℕ
  pub bytes : Memory

-- `font_bytesPerLine`, which `init_framebuffer` sets.
abbrev pub font_bytes_per_line : Font → ℕ
font_bytes_per_line font = u32 (font.width + 7) / 8

-- `mask >>= 1` of an `int`.
abbrev pub shift_right : ℕ → ℕ
shift_right mask = if ltb mask (2 ^ 31) then mask / 2 else mask / 2 + 2 ^ 31

-- `1 << (width - 1)`; the processor takes the count modulo 32.
abbrev pub first_mask : ℕ → ℕ
first_mask width = 2 ^ ((width + 31) % 32)

-- Where the glyph of `ch` starts in the font's file.
abbrev pub glyph_of : Font → ℕ → ℕ
glyph_of font ch =
    font.headersize
    + u32 ((if ltb 0 ch && ltb ch font.numglyph then ch else 0) * font.bytesperglyph)

module _ (font : Font) (r g b : ℕ) where
  -- The inner loop of `draw_character` at `x`, for the line `line` of the screen.
  pub line_loop : (left x mask glyph cx line : ℕ) → Framebuffer → Framebuffer
  line_loop zero x mask glyph cx line s = s
  line_loop (suc left) x mask glyph cx line s =
      line_loop left (x + 1) (shift_right mask) glyph cx line (
        if bit_and (read_bytes 4 font.bytes glyph) mask == 0
        then s
        else plot_pixel (u32 (cx + x)) line r g b s)

  pub glyph_loop : (left y glyph cx cy : ℕ) → Framebuffer → Framebuffer
  unfolding line_loop
  glyph_loop zero y glyph cx cy s = s
  glyph_loop (suc left) y glyph cx cy s =
      glyph_loop left (y + 1) (glyph + font_bytes_per_line font) cx cy
        (line_loop font.width 0 (first_mask font.width) glyph cx (u32 (cy + y)) s)

  pub draw_character : (ch cx cy : ℕ) → Framebuffer → Framebuffer
  unfolding glyph_loop
  draw_character ch cx cy s = glyph_loop font.height 0 (glyph_of font ch) cx cy s

  -- The loop of `draw_text` at index `i`.
  pub text_loop : (left i cx cy : ℕ) → Memory → (text : ℕ) → Framebuffer → Framebuffer
  unfolding draw_character
  text_loop zero i cx cy m text s = s
  text_loop (suc left) i cx cy m text s =
      text_loop left (i + 1) cx cy m text
        (draw_character (m (text + i)) (u32 (cx + u32 (i * font.width))) cy s)

  pub draw_text : (fuel cx cy : ℕ) → Memory → (text : ℕ) → Framebuffer → Option Framebuffer
  unfolding text_loop
  draw_text fuel cx cy m text s = elim (strlen fuel m text) [
    | none ↦ none
    | some len ↦ some (text_loop len 0 cx cy m text s)
  ]

-- `tempText` of `draw_vga_buffer`: its bytes are cleared, and then the line `py` is copied.
pub clear_temp : (left px : ℕ) → Memory → Memory
clear_temp zero px temp = temp
clear_temp (suc left) px temp = clear_temp left (px + 1) (write8 temp px 0)

pub copy_temp : (left px py width : ℕ) → (vga_buf : ℕ → ℕ) → Memory → Memory
copy_temp zero px py width vga_buf temp = temp
copy_temp (suc left) px py width vga_buf temp =
    copy_temp left (px + 1) py width vga_buf
      (write8 temp px (u8 (vga_buf (int_index (px + u32 (py * width))))))

module _ (font : Font) where
  -- The loop of `draw_vga_buffer` at the line `py`; `temp` is what the stack holds before.
  pub lines_loop : (left py fuel width : ℕ) → (ℕ → ℕ) → Memory → Framebuffer → Option Framebuffer
  unfolding clear_temp copy_temp draw_text
  lines_loop zero py fuel width vga_buf temp s = some s
  lines_loop (suc left) py fuel width vga_buf temp s =
      let line = copy_temp width 0 py width vga_buf (clear_temp (width + 1) 0 temp) in
      elim (draw_text font 160 160 160 fuel 0 (u32 (py * 16 + 16)) line 0 s) [
        | none ↦ none
        | some s' ↦ lines_loop left (py + 1) fuel width vga_buf line s'
      ]

  -- The sizes are at least 0.
  pub draw_vga_buffer :
      (fuel width height : ℕ) → (ℕ → ℕ) → Memory → Framebuffer → Option Framebuffer
  unfolding lines_loop
  draw_vga_buffer fuel width height vga_buf temp s = lines_loop height 0 fuel width vga_buf temp s
