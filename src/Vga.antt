-- ===== src/Vga.antt =====
-- src/drivers/vga.c: the text screen. `buffer` is the array `vga_buffer` by its 64-bit index, `ports`
-- what is written to the i/o ports, in order. `int` and `int16_t` are bit patterns.
pub mod Scroll
pub mod Typing
pub mod Clear
mod Tests
use mathlib.Core.Option
use potatos.Base.{
  ℕ, zero, suc, ◌+◌, ◌-◌, ◌*◌, ◌/◌, ◌%◌, ◌^◌, Bool, true, false, not, Option, none, some, List, [],
  ◌∷◌, ◌++◌, ◌==◌, if◌then◌else◌, bit_and, bit_or, u8, u16, u32, widen16, sub32, int_lt, int_rounds,
  int_index, write8,
}

abbrev pub Cells : Type 0
Cells = ℕ → ℕ

pub record Vga : Type 0 where
  pub buffer : Cells
  pub cursor_x : ℕ
  pub cursor_y : ℕ
  pub vga_color : ℕ
  pub vga_width : ℕ
  pub vga_height : ℕ
  pub ports : List (ℕ × ℕ)

pub vga_entry_color : (fg bg : ℕ) → ℕ
vga_entry_color fg bg = u8 (bit_or fg (bg * 2 ^ 4))

-- `ch` is cut to a byte by the call.
abbrev pub vga_entry : (ch color : ℕ) → ℕ
vga_entry ch color = u16 (bit_or (u8 ch) (color * 2 ^ 8))

abbrev pub set_cell : (i value : ℕ) → Vga → Vga
set_cell i value s = record s { buffer = write8 s.buffer (int_index i) value }

abbrev pub outportb : (portnum value : ℕ) → Vga → Vga
outportb portnum value s = record s { ports = s.ports ++ (portnum, value) ∷ [] }

pub set_cursor_position : (position : ℕ) → Vga → Vga
set_cursor_position position s =
    let low = outportb 0x3d5 (u8 (bit_and position 0xff)) (outportb 0x3d4 0x0f s) in
    outportb 0x3d5 (u8 (bit_and (position / 2 ^ 8) 0xff)) (outportb 0x3d4 0x0e low)

pub vga_update_cursor : Vga → Vga
vga_update_cursor s =
    set_cursor_position (u16 (u32 (widen16 s.cursor_y * s.vga_width + widen16 s.cursor_x))) s

pub vga_set_cursor_pos : (x y : ℕ) → Vga → Vga
vga_set_cursor_pos x y s = vga_update_cursor (record s { cursor_x = u16 x; cursor_y = u16 y })

abbrev pub vga_get_cursor_pos : Vga → ℕ × ℕ
vga_get_cursor_pos s = (widen16 s.cursor_x, widen16 s.cursor_y)

-- `enable_cursor`, with the bytes that the two reads of the port deliver.
pub enable_cursor : (start end first second : ℕ) → Vga → Vga
enable_cursor start end first second s =
    let top = outportb 0x3d5 (u8 (bit_or (bit_and first 0xc0) start)) (outportb 0x3d4 0x0a s) in
    let bottom = outportb 0x3d5 (u8 (bit_or (bit_and second 0xe0) end)) (outportb 0x3d4 0x0b top) in
    vga_update_cursor bottom

-- The loop of `vga_clear_screen` at cell `i`, with `left` rounds to go.
pub clear_loop : (left i value : ℕ) → Cells → Cells
clear_loop zero i value cells = cells
clear_loop (suc left) i value cells =
    clear_loop left (i + 1) value (write8 cells (int_index i) value)

pub vga_clear_screen : Vga → Vga
vga_clear_screen s =
    let max_rows = u32 (s.vga_height * s.vga_width) in
    let color = vga_entry_color 7 0 in
    vga_set_cursor_pos 0 0
      (record s { buffer = clear_loop max_rows 0 (vga_entry 0 color) s.buffer; vga_color = color })

-- `init_vga` without what it prints, with the bytes that `enable_cursor` reads.
pub init_vga : (first second : ℕ) → Vga → Vga
init_vga first second s = enable_cursor 14 15 first second (vga_clear_screen s)

-- The loops of `vga_scroll_screen` at index `i`, with `left` rounds to go.
pub move_loop : (left i width : ℕ) → Cells → Cells
move_loop zero i width cells = cells
move_loop (suc left) i width cells =
    move_loop left (i + 1) width (write8 cells (int_index i) (cells (int_index (i + width))))

pub blank_loop : (left i start : ℕ) → Cells → Cells
blank_loop zero i start cells = cells
blank_loop (suc left) i start cells =
    blank_loop left (i + 1) start (write8 cells (int_index (start + i)) 0)

pub vga_scroll_screen : Vga → Vga
vga_scroll_screen s =
    let max_row_minus_one = sub32 (u32 (s.vga_width * s.vga_height)) s.vga_width in
    let moved = move_loop (int_rounds max_row_minus_one) 0 s.vga_width s.buffer in
    record s { buffer = blank_loop (int_rounds s.vga_width) 0 max_row_minus_one moved }

-- `none` if the fuel runs out.
pub vga_check_if_scroll_needed : (fuel : ℕ) → Vga → Option Vga
vga_check_if_scroll_needed zero s = none
vga_check_if_scroll_needed (suc fuel) s =
    let scrolled = vga_scroll_screen s in
    let rest =
      vga_check_if_scroll_needed fuel
        (record scrolled { cursor_y = u16 (scrolled.cursor_y + 2 ^ 16 - 1) }) in
    if int_lt (widen16 s.cursor_y) (sub32 s.vga_height 1) then some s else rest

pub vga_next_line : (fuel : ℕ) → Vga → Option Vga
vga_next_line fuel s =
    vga_check_if_scroll_needed fuel (record s { cursor_x = 0; cursor_y = u16 (s.cursor_y + 1) })

-- The three ways of `vga_write_char`: a line feed, the code 14, which erases, and any other.
pub write_line_feed : (fuel : ℕ) → Vga → Option Vga
write_line_feed fuel s = Option.map vga_update_cursor (vga_next_line fuel s)

pub write_erase : (y : ℕ) → Vga → Vga
write_erase y s =
    let x = if int_lt 0 (widen16 s.cursor_x) then u16 (s.cursor_x + 2 ^ 16 - 1) else s.cursor_x in
    vga_update_cursor (
      set_cell (u32 (y * s.vga_width + widen16 x)) (vga_entry 32 s.vga_color)
        (record s { cursor_x = x }))

pub write_plain : (fuel ch x y : ℕ) → Vga → Option Vga
write_plain fuel ch x y s =
    let i = u32 (y * s.vga_width + x) in
    let shown =
      if int_lt i (u32 (s.vga_width * s.vga_height))
      then set_cell i (vga_entry ch s.vga_color) s
      else s in
    let moved = record shown { cursor_x = u16 (s.cursor_x + 1) } in
    Option.map vga_update_cursor
      (if int_lt (widen16 moved.cursor_x) s.vga_width then some moved else vga_next_line fuel moved)

pub vga_write_char : (fuel ch x y : ℕ) → Vga → Option Vga
vga_write_char fuel ch x y s =
    if ch == 10
    then write_line_feed fuel s
    else if ch == 14
    then some (write_erase y s)
    else write_plain fuel ch x y s

abbrev pub vga_resize : (new_width new_height : ℕ) → Vga → Vga
vga_resize new_width new_height s = record s { vga_width = new_width; vga_height = new_height }
