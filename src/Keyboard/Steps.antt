-- ===== src/Keyboard/Steps.antt =====
-- The two ways through `keyboard_driver_irq_handler` of src/drivers/keyboard.c.
use potatos.Base.{ℕ, ◌≡◌, true, false, ◌==◌, if◌then◌else◌}
use potatos.Keyboard.{
  KeyEvent, Keyboard, normal_state, prefix_state, update_modifiers, record_event,
  keyboard_driver_irq_handler,
}

-- What the handler does before it records the event of a code.
abbrev pub prepared : ℕ → Keyboard → Keyboard
prepared code s = record s {
  current_state = if s.current_state == prefix_state then normal_state else s.current_state;
  current_modifiers = update_modifiers code s.current_modifiers;
}

abbrev pub event_of : ℕ → Keyboard → KeyEvent
event_of code s = record { keycode = code; status_mask = update_modifiers code s.current_modifiers }

module _ (code : ℕ) (s : Keyboard) where
  pub keyboard_driver_irq_handler-prefix :
      (code == 0xe0) ≡ true
      → keyboard_driver_irq_handler code s ≡ record s { current_state = prefix_state }
  unfolding keyboard_driver_irq_handler
  keyboard_driver_irq_handler-prefix h = rw (keyboard_driver_irq_handler, h)

  pub keyboard_driver_irq_handler-event :
      (code == 0xe0) ≡ false
      → keyboard_driver_irq_handler code s ≡ record_event (event_of code s) (prepared code s)
  unfolding keyboard_driver_irq_handler
  keyboard_driver_irq_handler-event h = rw (keyboard_driver_irq_handler, h)
