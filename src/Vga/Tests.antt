-- ===== src/Vga/Tests.antt =====
-- src/drivers/vga.c on a small screen.
use mathlib.Core.Option
use potatos.Base.{◌+◌, ◌≡◌, refl, some, arith, []}
use potatos.Vga.{
  Vga, move_loop, blank_loop, vga_scroll_screen, vga_check_if_scroll_needed, vga_next_line,
  write_plain, vga_update_cursor, set_cursor_position, vga_get_cursor_pos, vga_write_char,
}
use potatos.Vga.Typing.{IsScreen, Leaves, typed, vga_write_char_lem}

-- Four columns and three lines; the cursor stands in the last cell that text reaches.
abbrev small : Vga
small = record {
  buffer = λ i. i + 100;
  cursor_x = 3;
  cursor_y = 1;
  vga_color = 7;
  vga_width = 4;
  vga_height = 3;
  ports = [];
}

small-IsScreen : IsScreen small
small-IsScreen = record {
  size = record { wide = omega arith; tall = omega arith; small = omega arith };
  column = omega arith;
  row = omega arith;
}

-- The character at the end of a line moves the screen up.
scrolls : Option.map (λ s. s.buffer 3) (vga_write_char 2 65 3 1 small) ≡ some 1857
unfolding vga_write_char write_plain vga_next_line vga_check_if_scroll_needed vga_scroll_screen
    move_loop blank_loop vga_update_cursor set_cursor_position
scrolls = refl

vga_write_char_lem_example :
    Leaves 0 small small-IsScreen
      (vga_write_char 2 65 (vga_get_cursor_pos small).0 (vga_get_cursor_pos small).1 small)
      (typed 65 small)
vga_write_char_lem_example = vga_write_char_lem 0 small small-IsScreen 65
