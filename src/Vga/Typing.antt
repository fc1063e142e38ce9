-- ===== src/Vga/Typing.antt =====
-- `vga_write_char` of src/drivers/vga.c at the cursor, as `putchar` calls it, against a description of
-- what typing a character does to a screen.
use mathlib.Core.Option
use mathlib.Core.List.{append_assoc}
use potatos.Base.{
  ℕ, suc, ◌+◌, ◌-◌, ◌*◌, ◌/◌, ◌%◌, ◌^◌, ◌≤◌, ◌<◌, ◌≡◌, refl, ap, true, false, ltb, ◌==◌,
  if◌then◌else◌, arith, Option, some, [], ◌∷◌, ◌++◌, u8, u16, u32, widen16, sub32, int_lt,
  int_index, write8, bit_and, Bool-cases, inl, inr, bit_and-ones,
}
use potatos.Vga.{
  Vga, vga_entry, set_cursor_position, vga_update_cursor, vga_check_if_scroll_needed, vga_next_line,
  write_line_feed, write_erase, write_plain, vga_write_char, vga_get_cursor_pos,
}
use potatos.Vga.Scroll.{scrolled, IsSize, vga_scroll_screen_lem}

-- The cursor stands on the screen, above its last line.
pub record IsScreen (s : Vga) : Type 0 where
  pub size : IsSize s.vga_width s.vga_height
  pub column : s.cursor_x < s.vga_width
  pub row : s.cursor_y + 1 < s.vga_height

-- The cell under the cursor.
abbrev pub cell : Vga → ℕ
cell s = s.cursor_y * s.vga_width + s.cursor_x

-- To the start of the next line; from the last line but one everything moves up instead.
abbrev pub line_fed : Vga → Vga
line_fed s =
    if ltb (s.cursor_y + 2) s.vga_height
    then record s { cursor_x = 0; cursor_y = s.cursor_y + 1 }
    else record s { cursor_x = 0; buffer = scrolled s.vga_width s.vga_height s.buffer }

abbrev pub erased : Vga → Vga
erased s =
    let back = record s { cursor_x = s.cursor_x - 1 } in
    record back { buffer = write8 s.buffer (cell back) (vga_entry 32 s.vga_color) }

abbrev pub shown : ℕ → Vga → Vga
shown ch s =
    let put = record s { buffer = write8 s.buffer (cell s) (vga_entry ch s.vga_color) } in
    if ltb (s.cursor_x + 1) s.vga_width
    then record put { cursor_x = s.cursor_x + 1 }
    else line_fed put

abbrev pub typed : ℕ → Vga → Vga
typed ch s = if ch == 10 then line_fed s else if ch == 14 then erased s else shown ch s

-- The hardware's cursor follows: the low and the high byte of the cell's number go to the ports.
abbrev pub announced : Vga → Vga
announced s = record s {
  ports =
      s.ports ++ (0x3d4, 0x0f) ∷ (0x3d5, cell s % 256) ∷ (0x3d4, 0x0e) ∷ (0x3d5, cell s / 256) ∷ [];
}

in_row : (w h x y : ℕ) → x < w → y < h → y * w + x < w * h
in_row w h x y p q = grind arith

le_area : (w h : ℕ) → 1 ≤ w → 1 ≤ h → (w ≤ w * h) × (h ≤ w * h)
le_area w h p q = grind arith

-- Nothing wraps around on a screen.
record IsNarrow (s : Vga) : Type 0 where
  width : s.vga_width < 2 ^ 15
  height : s.vga_height < 2 ^ 15
  area : s.vga_width * s.vga_height < 2 ^ 15
  inside : cell s < s.vga_width * s.vga_height

narrow : (s : Vga) → IsScreen s → IsNarrow s
narrow s v =
    let sides = le_area s.vga_width s.vga_height v.size.wide (omega arith) in
    record {
      width = omega arith;
      height = omega arith;
      area = v.size.small;
      inside = in_row s.vga_width s.vga_height s.cursor_x s.cursor_y v.column (omega arith);
    }

pub update_cursor_lem : (s : Vga) → IsScreen s → vga_update_cursor s ≡ announced s
unfolding vga_update_cursor set_cursor_position
update_cursor_lem s v =
    let n = narrow s v in
    let y : widen16 s.cursor_y ≡ s.cursor_y = ground arith in
    let x : widen16 s.cursor_x ≡ s.cursor_x = ground arith in
    let position : u16 (u32 (cell s)) ≡ cell s = omega arith in
    let low : u8 (bit_and (cell s) 0xff) ≡ cell s % 256 = omega (arith, bit_and-ones 8 (cell s)) in
    let high : u8 (bit_and (cell s / 2 ^ 8) 0xff) ≡ cell s / 256 =
      omega (arith, bit_and-ones 8 (cell s / 2 ^ 8)) in
    rw (y, x, position, low, high) (simp append_assoc)

-- The screen has room for another line.
scroll_not_needed :
    (fuel : ℕ) (s : Vga) → IsScreen s → vga_check_if_scroll_needed (suc fuel) s ≡ some s
unfolding vga_check_if_scroll_needed
scroll_not_needed fuel s v =
    let n = narrow s v in
    let above : int_lt (widen16 s.cursor_y) (sub32 s.vga_height 1) ≡ true = ground arith in
    rw above refl

scroll_needed :
    (fuel : ℕ) (s : Vga) (y : ℕ)
    → IsScreen (record s { cursor_y = y })
    → s.cursor_y ≡ y + 1
    → y + 2 ≡ s.vga_height
    → vga_check_if_scroll_needed (suc (suc fuel)) s
      ≡ some (record s { cursor_y = y; buffer = scrolled s.vga_width s.vga_height s.buffer })
unfolding vga_check_if_scroll_needed
scroll_needed fuel s y v at last =
    let n = narrow (record s { cursor_y = y }) v in
    let below : int_lt (widen16 s.cursor_y) (sub32 s.vga_height 1) ≡ false = ground arith in
    let up : u16 (s.cursor_y + 2 ^ 16 - 1) ≡ y = omega arith in
    rw (below, vga_scroll_screen_lem s v.size, up)
      (scroll_not_needed fuel _ (record { size = v.size; column = v.column; row = v.row }))

next_line_lem :
    (fuel : ℕ) (s : Vga)
    → IsScreen (record s { cursor_x = 0 })
    → vga_next_line (suc (suc fuel)) s ≡ some (line_fed s)
unfolding vga_next_line
next_line_lem fuel s v =
    let n = narrow (record s { cursor_x = 0 }) v in
    let down : u16 (s.cursor_y + 1) ≡ s.cursor_y + 1 = omega arith in
    elim (Bool-cases (ltb (s.cursor_y + 2) s.vga_height)) [
      | inl room ↦
          rw (down, room)
            (scroll_not_needed (suc fuel) _
              (record { size = v.size; column = v.size.wide; row = ground arith }))
      | inr last ↦
          rw (down, last)
            (scroll_needed fuel _ s.cursor_y
              (record { size = v.size; column = v.size.wide; row = v.row }) refl (ground arith))
    ]

line_fed-IsScreen : (s : Vga) → IsScreen s → IsScreen (line_fed s)
line_fed-IsScreen s v = elim (Bool-cases (ltb (s.cursor_y + 2) s.vga_height)) [
  | inl room ↦ rw room (record { size = v.size; column = v.size.wide; row = ground arith })
  | inr last ↦ rw last (record { size = v.size; column = v.size.wide; row = v.row })
]

shown-IsScreen : (ch : ℕ) (s : Vga) → IsScreen s → IsScreen (shown ch s)
shown-IsScreen ch s v = elim (Bool-cases (ltb (s.cursor_x + 1) s.vga_width)) [
  | inl room ↦ rw room (record { size = v.size; column = ground arith; row = v.row })
  | inr last ↦
      rw last (line_fed-IsScreen _ (record { size = v.size; column = v.column; row = v.row }))
]

erased-IsScreen : (s : Vga) → IsScreen s → IsScreen (erased s)
erased-IsScreen s v = record { size = v.size; column = omega arith; row = v.row }

announced_after :
    (s : Vga)
    → IsScreen s
    → (Option.map vga_update_cursor (some s) ≡ some (announced s)) × IsScreen (announced s)
announced_after s v =
    (ap some (update_cursor_lem s v), record { size = v.size; column = v.column; row = v.row })

module _ (fuel : ℕ) (s : Vga) (v : IsScreen s) where
  -- What a call of `vga_write_char` is to return.
  abbrev pub Leaves : Option Vga → Vga → Type 0
  Leaves r t = (r ≡ some (announced t)) × IsScreen (announced t)

  write_line_feed_lem : Leaves (write_line_feed (suc (suc fuel)) s) (line_fed s)
  unfolding write_line_feed
  write_line_feed_lem =
      rw (next_line_lem fuel s (record { size = v.size; column = v.size.wide; row = v.row }))
        (announced_after (line_fed s) (line_fed-IsScreen s v))

  write_erase_lem : Leaves (some (write_erase (widen16 s.cursor_y) s)) (erased s)
  unfolding write_erase
  write_erase_lem =
      let n = narrow s v in
      let y : widen16 s.cursor_y ≡ s.cursor_y = ground arith in
      let x : (if int_lt 0 (widen16 s.cursor_x) then u16 (s.cursor_x + 2 ^ 16 - 1) else s.cursor_x)
          ≡ s.cursor_x - 1 =
        ground arith in
      let small : widen16 (s.cursor_x - 1) ≡ s.cursor_x - 1 = ground arith in
      let i : int_index (u32 (s.cursor_y * s.vga_width + (s.cursor_x - 1)))
          ≡ s.cursor_y * s.vga_width + (s.cursor_x - 1) =
        ground arith in
      rw (y, x, small, i) (announced_after (erased s) (erased-IsScreen s v))

  write_plain_lem :
      (ch : ℕ)
      → Leaves
          (write_plain (suc (suc fuel)) ch (widen16 s.cursor_x) (widen16 s.cursor_y) s)
          (shown ch s)
  unfolding write_plain
  write_plain_lem ch =
      let n = narrow s v in
      let y : widen16 s.cursor_y ≡ s.cursor_y = ground arith in
      let x : widen16 s.cursor_x ≡ s.cursor_x = ground arith in
      let i : u32 (cell s) ≡ cell s = omega arith in
      let j : int_index (cell s) ≡ cell s = ground arith in
      let inside : int_lt (cell s) (u32 (s.vga_width * s.vga_height)) ≡ true = ground arith in
      let right : u16 (s.cursor_x + 1) ≡ s.cursor_x + 1 = omega arith in
      let near : widen16 (s.cursor_x + 1) ≡ s.cursor_x + 1 = ground arith in
      let room : int_lt (s.cursor_x + 1) s.vga_width ≡ ltb (s.cursor_x + 1) s.vga_width =
        ground arith in
      let put = record s { buffer = write8 s.buffer (cell s) (vga_entry ch s.vga_color) } in
      let here : IsScreen put = record { size = v.size; column = v.column; row = v.row } in
      elim (Bool-cases (ltb (s.cursor_x + 1) s.vga_width)) [
        | inl more ↦
            rw (write_plain, y, x, i, inside, j, right, near, room, more)
              (announced_after (record put { cursor_x = s.cursor_x + 1 })
                (record { size = v.size; column = ground arith; row = v.row }))
        | inr last ↦
            rw (write_plain, y, x, i, inside, j, right, near, room, last)
              (rw
                (next_line_lem fuel (record put { cursor_x = s.cursor_x + 1 })
                  (record { size = v.size; column = v.size.wide; row = v.row }))
                (announced_after (line_fed put) (line_fed-IsScreen put here)))
      ]

  -- `vga_write_char` at the cursor of a screen of fewer than 2 ^ 15 cells returns, with fuel for two
  -- rounds, what typing the character leaves: a line feed goes to the next line, the code 14 blanks
  -- the cell to the left, any other character is shown and moves the cursor on, and from the end of
  -- the last line but one the screen moves up. The cursor stays on the screen, above its last line,
  -- and the hardware is told its cell; no cell outside the screen changes.
  pub vga_write_char_lem :
      (ch : ℕ)
      → Leaves
          (vga_write_char (suc (suc fuel)) ch (vga_get_cursor_pos s).0 (vga_get_cursor_pos s).1 s)
          (typed ch s)
  unfolding vga_write_char
  vga_write_char_lem ch = elim (Bool-cases (ch == 10)) [
    | inl feed ↦ rw feed write_line_feed_lem
    | inr other ↦ elim (Bool-cases (ch == 14)) [
      | inl erase ↦ rw (other, erase) write_erase_lem
      | inr plain ↦ rw (other, plain) (write_plain_lem ch)
    ]
  ]
