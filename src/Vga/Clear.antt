-- ===== src/Vga/Clear.antt =====
-- `vga_clear_screen` of src/drivers/vga.c.
use native.Mathlib.Nat.{mul_comm}
use potatos.Base.{
  ℕ, zero, suc, ◌+◌, ◌*◌, ◌^◌, ◌<◌, ◌≡◌, fun_ext, ltb, leb, ◌&&◌, if◌then◌else◌, arith, int_index,
  u32, write8,
}
use potatos.Vga.{
  Cells, Vga, vga_entry, vga_entry_color, clear_loop, vga_set_cursor_pos, vga_clear_screen,
}
use potatos.Vga.Scroll.{IsSize}
use potatos.Vga.Typing.{IsScreen, announced, update_cursor_lem}

clear_loop_lem :
    (left i value : ℕ) (cells : Cells) (x : ℕ)
    → i + left < 2 ^ 31
    → clear_loop left i value cells x ≡ (if leb i x && ltb x (i + left) then value else cells x)
unfolding clear_loop
clear_loop_lem zero i value cells x small = ground arith
clear_loop_lem (suc left) i value cells x small =
    let here : int_index i ≡ i = ground arith in
    let rest = clear_loop_lem left (i + 1) value (write8 cells i value) x (omega arith) in
    rw here (ground (arith, rest))

-- The screen in light grey on black without a character, the cursor in the corner.
abbrev pub cleared : Vga → Vga
cleared s = record s {
  buffer = λ x. if ltb x (s.vga_height * s.vga_width) then 7 * 256 else s.buffer x;
  vga_color = 7;
  cursor_x = 0;
  cursor_y = 0;
}

-- `vga_clear_screen` on a screen of at least one column and two lines and of fewer than 2 ^ 15 cells,
-- wherever the cursor stands: every cell of the screen is blank in light grey on black and no other
-- cell changes, and the cursor stands in the corner, which the hardware is told.
pub vga_clear_screen_lem :
    (s : Vga)
    → IsSize s.vga_width s.vga_height
    → (vga_clear_screen s ≡ announced (cleared s)) × IsScreen (announced (cleared s))
unfolding vga_clear_screen vga_set_cursor_pos vga_entry_color
vga_clear_screen_lem s z =
    let area : s.vga_height * s.vga_width ≡ s.vga_width * s.vga_height =
      mul_comm s.vga_height s.vga_width in
    let rows : u32 (s.vga_height * s.vga_width) ≡ s.vga_height * s.vga_width = omega arith in
    let corner : IsScreen (cleared s) = record { size = z; column = z.wide; row = z.tall } in
    let cells : clear_loop (s.vga_height * s.vga_width) 0 (vga_entry 0 7) s.buffer
        ≡ (cleared s).buffer =
      fun_ext
        (λ x. ground (arith, clear_loop_lem (s.vga_height * s.vga_width) 0 (7 * 256) s.buffer x)) in
    (
      rw (rows, cells) (update_cursor_lem (cleared s) corner),
      record { size = z; column = z.wide; row = z.tall },
    )
