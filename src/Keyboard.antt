-- ===== src/Keyboard.antt =====
-- src/drivers/keyboard.c and include/drivers/keyboard.h: the handler of the keyboard's interrupt. A
-- function of the scancode that `inportb(KB_DATA_PORT)` delivers; `printed` are the characters that
-- it prints.
pub mod Steps
pub mod Ring
pub mod Typing
mod Tests
use potatos.Base.{
  ℕ, ◌+◌, ◌%◌, Bool, true, false, ◌||◌, not, List, [], ◌∷◌, ◌++◌, ◌==◌, if◌then◌else◌, bit_clear,
  set_bit, clear_bit,
}

pub record KeyEvent : Type 0 where
  pub keycode : ℕ
  pub status_mask : ℕ

abbrev pub max_keyb_buffer_size : ℕ
max_keyb_buffer_size = 255

abbrev pub normal_state : ℕ
normal_state = 0

abbrev pub prefix_state : ℕ
prefix_state = 1

abbrev pub shift_mask : ℕ
shift_mask = 3

abbrev pub release : ℕ
release = 128

abbrev pub key_shiftl : ℕ
key_shiftl = 42

abbrev pub key_shiftr : ℕ
key_shiftr = 54

-- The scancodes of the `switch` in the order of its cases, each with the byte that it yields without
-- and with shift. A character outside ASCII is the last byte of its UTF-8 form.
abbrev pub layout : List (ℕ × ℕ × ℕ)
layout =
    (41, 167, 189)
    ∷ (2, 49, 33)
    ∷ (3, 50, 34)
    ∷ (4, 51, 35)
    ∷ (5, 52, 164)
    ∷ (6, 53, 37)
    ∷ (7, 54, 38)
    ∷ (8, 55, 47)
    ∷ (9, 56, 40)
    ∷ (10, 57, 41)
    ∷ (11, 48, 61)
    ∷ (12, 43, 63)
    ∷ (14, 14, 14)
    ∷ (16, 113, 81)
    ∷ (17, 119, 87)
    ∷ (18, 101, 69)
    ∷ (19, 114, 82)
    ∷ (20, 116, 84)
    ∷ (21, 121, 89)
    ∷ (22, 117, 85)
    ∷ (23, 105, 73)
    ∷ (24, 111, 79)
    ∷ (25, 112, 80)
    ∷ (27, 168, 94)
    ∷ (30, 97, 65)
    ∷ (31, 115, 83)
    ∷ (32, 100, 68)
    ∷ (33, 102, 70)
    ∷ (34, 103, 71)
    ∷ (35, 104, 72)
    ∷ (36, 106, 74)
    ∷ (37, 107, 75)
    ∷ (38, 108, 76)
    ∷ (43, 39, 42)
    ∷ (86, 60, 62)
    ∷ (44, 122, 90)
    ∷ (45, 120, 88)
    ∷ (46, 99, 67)
    ∷ (47, 118, 86)
    ∷ (48, 98, 66)
    ∷ (49, 110, 78)
    ∷ (50, 109, 77)
    ∷ (51, 44, 59)
    ∷ (52, 46, 58)
    ∷ (53, 45, 95)
    ∷ (57, 32, 32)
    ∷ (28, 10, 10)
    ∷ []

-- The `switch`.
pub select : List (ℕ × ℕ × ℕ) → Bool → ℕ → ℕ
select [] shifted code = 0
select ((key, plain, upper) ∷ rest) shifted code =
    if key == code then (if shifted then plain else upper) else select rest shifted code

pub printable : Bool → ℕ → ℕ
unfolding select
printable shifted code = select layout shifted code

-- The source's `shifted` is true if no shift key is held.
pub keyboard_get_printable_char : KeyEvent → ℕ
keyboard_get_printable_char key = printable (bit_clear key.status_mask shift_mask) key.keycode

pub record Keyboard : Type 0 where
  pub keyboard_buffer : ℕ → KeyEvent
  pub buf_position : ℕ
  pub current_state : ℕ
  pub current_modifiers : ℕ
  pub printed : List ℕ

pub init_keyboard : Keyboard → Keyboard
init_keyboard s = record s { current_state = normal_state }

-- The two `if`s on the shift keys.
pub update_modifiers : (scancode modifiers : ℕ) → ℕ
update_modifiers scancode modifiers =
    let pressed =
      if scancode == key_shiftl || scancode == key_shiftr
      then set_bit modifiers shift_mask
      else modifiers in
    if scancode == key_shiftl + release || scancode == key_shiftr + release
    then clear_bit pressed shift_mask
    else pressed

-- What the handler does with a code that is no prefix, from `keyboard_buffer[buf_position]` on.
pub record_event : KeyEvent → Keyboard → Keyboard
record_event event s =
    let key = keyboard_get_printable_char event in
    record s {
      keyboard_buffer = λ i. if s.buf_position == i then event else s.keyboard_buffer i;
      buf_position = (s.buf_position + 1) % max_keyb_buffer_size;
      printed = if key == 0 then s.printed else s.printed ++ key ∷ [];
    }

pub keyboard_driver_irq_handler : ℕ → Keyboard → Keyboard
keyboard_driver_irq_handler scancode s =
    let state = if s.current_state == prefix_state then normal_state else s.current_state in
    let modifiers = update_modifiers scancode s.current_modifiers in
    if scancode == 0xe0
    then record s { current_state = prefix_state }
    else record_event (record { keycode = scancode; status_mask = modifiers })
        (record s { current_state = state; current_modifiers = modifiers })

-- One interrupt after another.
unfoldable pub handle_all : List ℕ → Keyboard → Keyboard
handle_all [] s = s
handle_all (code ∷ codes) s = handle_all codes (keyboard_driver_irq_handler code s)
