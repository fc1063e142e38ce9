-- ===== src/Framebuffer/Draw/Screen.antt =====
-- What `draw_vga_buffer` of src/drivers/framebuffer/framebuffer.c draws, with a font that is 8 pixels
-- wide and at most 16 high.
use potatos.Base.{
  ◌⊎◌, sym, ℕ, zero, suc, ◌+◌, ◌*◌, ◌-◌, ◌/◌, ◌%◌, ◌^◌, ◌≤◌, ◌<◌, ◌≡◌, refl, ◌∙◌, ap, inl, inr,
  Bool, ◌&&◌, ◌==◌, arith, Bool-cases, if◌then◌else◌, Option, none, ltb, leb, u8, u32, int_index,
  Memory, IsBytes, some, List, [], ◌∷◌, length,
}
use mathlib.Core.Path.{subst}
use native.Mathlib.Nat.{mul-le-mul_right}
use potatos.Text.Strings.{IsString}
use potatos.Framebuffer.{Framebuffer, color}
use potatos.Framebuffer.Draw.{Font, draw_text, clear_temp, copy_temp, lines_loop, draw_vga_buffer}
use potatos.Framebuffer.Draw.Glyphs.{IsScreen, SameScreen, SameScreen-IsScreen}
use potatos.Framebuffer.Draw.Blank.{Inkless, Inkless-written, draw_text-blank}
use potatos.Framebuffer.Draw.Texts.{written, Texted, draw_text_lem}

clear_temp_lem :
    (left px : ℕ) (temp : Memory) (x : ℕ)
    → clear_temp left px temp x ≡ (if leb px x && ltb x (px + left) then 0 else temp x)
unfolding clear_temp
clear_temp_lem zero px temp x = ground arith
clear_temp_lem (suc left) px temp x = clear_temp_lem left (px + 1) _ x ∙ ground arith

copy_temp_lem :
    (left px py width : ℕ) (buf : ℕ → ℕ) (temp : Memory) (x : ℕ)
    → px + left + py * width < 2 ^ 31
    → copy_temp left px py width buf temp x
      ≡ (if leb px x && ltb x (px + left) then u8 (buf (x + py * width)) else temp x)
unfolding copy_temp
copy_temp_lem zero px py width buf temp x small = ground arith
copy_temp_lem (suc left) px py width buf temp x small =
    let index : int_index (px + u32 (py * width)) ≡ px + py * width = ground arith in
    copy_temp_lem left (px + 1) py width buf _ x (omega arith)
    ∙ rw index (elim (Bool-cases (x == px)) [
      | inl same ↦ let e : x ≡ px = ground arith in rw e (ground arith)
      | inr other ↦ ground arith
    ])

-- The characters of a line from the cell `at` on, up to the first that is 0.
abbrev pub line_chars : (left at : ℕ) → (ℕ → ℕ) → List ℕ
line_chars zero at buf = []
line_chars (suc left) at buf =
    if u8 (buf at) == 0 then [] else u8 (buf at) ∷ line_chars left (at + 1) buf

length-line_chars : (left at : ℕ) (buf : ℕ → ℕ) → length (line_chars left at buf) ≤ left
length-line_chars zero at buf = omega arith
length-line_chars (suc left) at buf = ground (arith, length-line_chars left (at + 1) buf)

line_chars-IsString :
    (left px at : ℕ) (buf : ℕ → ℕ) (temp : Memory)
    → ((k : ℕ) → k < left → temp (px + k) ≡ u8 (buf (at + k)))
    → temp (px + left) ≡ 0
    → IsString temp px (line_chars left at buf)
line_chars-IsString zero px at buf temp same end = ap temp (omega arith) ∙ end
line_chars-IsString (suc left) px at buf temp same end =
    let first : temp px ≡ u8 (buf at) =
      ap temp (omega arith) ∙ same 0 (omega arith) ∙ ap (λ a. u8 (buf a)) (omega arith) in
    let rest =
      line_chars-IsString left (px + 1) (at + 1) buf temp
        (λ k h.
          ap temp (omega arith) ∙ same (k + 1) (omega arith) ∙ ap (λ a. u8 (buf a)) (omega arith))
        (ap temp (omega arith) ∙ end) in
    elim (Bool-cases (u8 (buf at) == 0)) [
      | inl stop ↦ rw stop (first ∙ ground arith)
      | inr more ↦ rw more (first, ground arith, rest)
    ]

line_place : (k n : ℕ) → 0 + k + n ≡ n + k
line_place k n = omega arith

-- `tempText` for the line `py`.
abbrev temp_text : (py width : ℕ) → (ℕ → ℕ) → Memory → Memory
temp_text py width buf temp = copy_temp width 0 py width buf (clear_temp (width + 1) 0 temp)

temp_text-IsString :
    (py width : ℕ) (buf : ℕ → ℕ) (temp : Memory)
    → width + py * width < 2 ^ 31
    → IsString (temp_text py width buf temp) 0 (line_chars width (py * width) buf)
temp_text-IsString py width buf temp small =
    let cleared = clear_temp (width + 1) 0 temp in
    line_chars-IsString width 0 (py * width) buf (temp_text py width buf temp)
      (λ k h.
        copy_temp_lem width 0 py width buf cleared (0 + k) (omega arith)
        ∙ ground (arith, ap (λ a. u8 (buf a)) (line_place k (py * width))))
      (copy_temp_lem width 0 py width buf cleared (0 + width) (omega arith)
        ∙ ground (arith, clear_temp_lem (width + 1) 0 temp (0 + width)))

module _ (font : Font) (bytes : IsBytes font.bytes) (eight : font.width ≡ 8)
    (flat : font.height ≤ 16) (width height : ℕ) (buf : ℕ → ℕ) where
  -- Is there a pixel of a character in column `x` of line `y`? The lines of text start at line 16.
  abbrev pub lettered : (x y : ℕ) → Bool
  lettered x y =
      ltb ((y - 16) % 16) font.height
      && written font (line_chars width ((y - 16) / 16 * width) buf) x ((y - 16) % 16)

  -- `t` shows the lines of text from `py` on, and else what `s` shows.
  abbrev pub Lettered : (py w : ℕ) → Framebuffer → Framebuffer → Type 0
  Lettered py w s t =
      SameScreen s t
      × ((x' y' : ℕ)
          → x' < w
          → t.buffer (y' * w + x') ≡ (
              if leb (py * 16 + 16) y' && ltb y' (height * 16 + 16) && lettered x' y'
              then color 160 160 160
              else s.buffer (y' * w + x')))

  -- The rest of the loop behind the line `py`.
  abbrev after_line : (left py fuel : ℕ) → Memory → Option Framebuffer → Option Framebuffer
  after_line left py fuel line none = none
  after_line left py fuel line (some t) = lines_loop font left (py + 1) fuel width buf line t

  line_step :
      (left py fuel : ℕ) (temp : Memory) (s t : Framebuffer)
      → py * 16 + 16 < 2 ^ 32
      → draw_text font 160 160 160 fuel 0 (py * 16 + 16) (temp_text py width buf temp) 0 s ≡ some t
      → lines_loop font (suc left) py fuel width buf temp s
        ≡ lines_loop font left (py + 1) fuel width buf (temp_text py width buf temp) t
  unfolding lines_loop
  line_step left py fuel temp s t small run =
      let line = temp_text py width buf temp in
      let y : u32 (py * 16 + 16) ≡ py * 16 + 16 = omega arith in
      ap (λ y. after_line left py fuel line (draw_text font 160 160 160 fuel 0 y line 0 s)) y
      ∙ ap (after_line left py fuel line) run

  -- The pixels of the lines from `py` on are those of the line `py` and of the lines behind it.
  pick :
      (py x y now before : ℕ)
      → py < height
      → now ≡ (
          if leb (py * 16 + 16) y
            && ltb y (py * 16 + 16 + font.height)
            && (leb 0 x
                && written font (line_chars width (py * width) buf) (x - 0) (y - (py * 16 + 16)))
          then color 160 160 160
          else before)
      → (if leb ((py + 1) * 16 + 16) y && ltb y (height * 16 + 16) && lettered x y
          then color 160 160 160
          else now)
        ≡ (if leb (py * 16 + 16) y && ltb y (height * 16 + 16) && lettered x y
            then color 160 160 160
            else before)
  pick py x y now before inside drawn =
      elim (Bool-cases (leb (py * 16 + 16) y && ltb y (py * 16 + 32))) [
        | inl here ↦
            let line : (y - 16) / 16 ≡ py = ground arith in
            let row : (y - 16) % 16 ≡ y - (py * 16 + 16) = ground arith in
            let column : x - 0 ≡ x = omega arith in rw (line, row, drawn, column) (ground arith)
        | inr there ↦ ground (arith, drawn)
      ]

  -- The text of a line, and its length.
  line-IsString :
      (py : ℕ) (temp : Memory)
      → py < height
      → height * width < 2 ^ 31
      → IsString (temp_text py width buf temp) 0 (line_chars width (py * width) buf)
        × (length (line_chars width (py * width) buf) ≤ width)
  line-IsString py temp inside cells =
      let lower : suc py ≤ height = omega arith in
      let le = mul-le-mul_right width lower in
      let one : suc py * width ≡ py * width + width = omega arith in
      (
        temp_text-IsString py width buf temp (omega (arith, le, one)),
        length-line_chars width (py * width) buf,
      )

  -- The line `py` is inside the screen, or no character of it has a pixel.
  abbrev pub Fits : (screen_height py : ℕ) → Type 0
  Fits screen_height py =
      (py * 16 + 16 + font.height ≤ screen_height)
      ⊎ Inkless font (line_chars width (py * width) buf)

  -- One line of text.
  line_drawn :
      (py fuel w : ℕ) (temp : Memory) (s : Framebuffer)
      → py < height
      → width < fuel
      → height * width < 2 ^ 31
      → IsScreen s
      → s.width ≡ w
      → width * 8 ≤ w
      → py * 16 + 32 < 2 ^ 32
      → Fits s.height py
      → (t : Framebuffer) × (draw_text font 160 160 160 fuel 0
            (py * 16 + 16)
            (temp_text py width buf temp)
            0
            s
          ≡ some t)
        × Texted font 160 160 160 bytes eight
            (line_chars width (py * width) buf)
            0
            (py * 16 + 16)
            w
            s
            t
  line_drawn py fuel w temp s inside enough cells screen wide fits low (inl room) =
      let (string, short) = line-IsString py temp inside cells in
      let (t, run, drawn) =
        draw_text_lem font 160 160 160 bytes eight (line_chars width (py * width) buf) fuel 0
          (py * 16 + 16) (temp_text py width buf temp) 0 s string (omega (arith, short)) screen
          (omega (arith, short, wide)) room in
      (
        t,
        run,
        subst
            (λ v.
              Texted font 160 160 160 bytes eight (line_chars width (py * width) buf) 0
                (py * 16 + 16) v s t)
            wide drawn,
      )
  line_drawn py fuel w temp s inside enough cells screen wide fits low (inr empty) =
      let (string, short) = line-IsString py temp inside cells in
      (
        s,
        draw_text-blank font 160 160 160 bytes eight (line_chars width (py * width) buf) fuel 0
            (py * 16 + 16) (temp_text py width buf temp) 0 s string (omega (arith, short))
            (omega (arith, short, wide, screen.1)) (omega arith) empty,
        (
          (refl, refl, refl),
          λ x' y' h. ground (
            arith,
            Inkless-written font (line_chars width (py * width) buf) (x' - 0) (y' - (py * 16 + 16))
                empty,
          ),
        ),
      )

  lines_loop-Lettered :
      (left py fuel w tall : ℕ) (temp : Memory) (s : Framebuffer)
      → py + left ≡ height
      → width < fuel
      → height * width < 2 ^ 31
      → IsScreen s
      → s.width ≡ w
      → s.height ≡ tall
      → width * 8 ≤ w
      → height * 16 + 16 < 2 ^ 32
      → ((k : ℕ) → k < height → Fits tall k)
      → (t : Framebuffer) × (lines_loop font left py fuel width buf temp s ≡ some t)
        × Lettered py w s t
  unfolding lines_loop
  lines_loop-Lettered zero py fuel w tall temp s at enough cells screen wide high fits low room =
      (s, refl, ((refl, refl, refl), λ x' y' h. ground arith))
  lines_loop-Lettered (suc left) py fuel w tall temp s at enough cells screen wide high fits low
        room =
      let (t, run, first) =
        line_drawn py fuel w temp s (omega arith) enough cells screen wide fits (omega arith)
          (subst (λ a. Fits a py) (sym high) (room py (omega arith))) in
      let rest =
        lines_loop-Lettered left (py + 1) fuel w tall (temp_text py width buf temp) t (omega arith)
          enough cells (SameScreen-IsScreen s t first.0 screen) (first.0.0 ∙ wide)
          (first.0.1 ∙ high) fits low room in
      (
        rest.0,
        line_step left py fuel temp s t (omega arith) run ∙ rest.1,
        (
          (rest.2.0.0 ∙ first.0.0, rest.2.0.1 ∙ first.0.1, rest.2.0.2 ∙ first.0.2),
          λ x' y' h.
              rest.2.1 x' y' h
              ∙ pick py x' y' (t.buffer (y' * w + x')) (s.buffer (y' * w + x')) (omega arith)
                  (first.1 x' y' h),
        ),
      )

  -- `draw_vga_buffer` returns, with more fuel than a line has characters, with a font 8 pixels wide and
  -- at most 16 high, on a screen that is wide enough and high enough for each line that has a pixel:
  -- the characters of each line of the text screen, up to one that is 0, are drawn in gray, 16 lines of
  -- pixels to a line of text from line 16 on; no other pixel changes, and what is on the screen stays.
  pub draw_vga_buffer_lem :
      (fuel : ℕ) (temp : Memory) (s : Framebuffer)
      → width < fuel
      → height * width < 2 ^ 31
      → IsScreen s
      → width * 8 ≤ s.width
      → height * 16 + 16 < 2 ^ 32
      → ((k : ℕ) → k < height → Fits s.height k)
      → (t : Framebuffer) × (draw_vga_buffer font fuel width height buf temp s ≡ some t)
        × Lettered 0 s.width s t
  unfolding draw_vga_buffer
  draw_vga_buffer_lem fuel temp s enough cells screen fits low room =
      lines_loop-Lettered height 0 fuel s.width s.height temp s (omega arith) enough cells screen
        refl refl fits low room
