-- ===== src/Keyboard/Tests.antt =====
-- src/drivers/keyboard.c at concrete scancodes.
use potatos.Base.{ℕ, ◌≡◌, refl, false, arith, List, [], ◌∷◌, ◌++◌}
use potatos.Keyboard.{
  Keyboard, init_keyboard, update_modifiers, record_event, keyboard_get_printable_char, printable,
  keyboard_driver_irq_handler, handle_all,
}
use potatos.Keyboard.Ring.{events, IsRing, handle_all-IsRing}
use potatos.Keyboard.Typing.{held_after, typed, IsHeld, handle_all-typed}

-- The variables as the kernel's image holds them.
abbrev fresh : Keyboard
fresh = record {
  keyboard_buffer = λ i. record { keycode = 0; status_mask = 0 };
  buf_position = 0;
  current_state = 0;
  current_modifiers = 0;
  printed = [];
}

-- Shift down, A, shift up, A, and A let go.
abbrev codes : List ℕ
codes = 42 ∷ 30 ∷ 170 ∷ 30 ∷ 158 ∷ []

prints_letters : (handle_all codes (init_keyboard fresh)).printed ≡ 65 ∷ 97 ∷ []
unfolding handle_all keyboard_driver_irq_handler record_event update_modifiers printable
    keyboard_get_printable_char init_keyboard
prints_letters = refl

fresh-IsHeld : IsHeld fresh.current_modifiers false
fresh-IsHeld = record { byte = omega arith; clear = refl }

handle_all-typed_example :
    ((handle_all codes fresh).printed ≡ fresh.printed ++ typed false codes)
    × IsHeld (handle_all codes fresh).current_modifiers (held_after false codes)
handle_all-typed_example = handle_all-typed codes fresh false fresh-IsHeld

fresh-IsRing : IsRing fresh []
fresh-IsRing = record { position = omega arith; slots = λ age e young here. ground arith }

handle_all-IsRing_example :
    IsRing (handle_all codes fresh) (events codes fresh.current_modifiers [])
handle_all-IsRing_example = handle_all-IsRing codes fresh [] fresh-IsRing
