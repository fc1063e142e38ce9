-- ===== src/Keyboard/Ring.antt =====
-- The ring of events of src/drivers/keyboard.c holds the last 255 events.
use potatos.Base.{
  ℕ, zero, suc, ◌+◌, ◌-◌, ◌%◌, ◌<◌, ◌≡◌, some, List, [], ◌∷◌, ◌==◌, if◌then◌else◌, arith, get_elem?,
  Bool-cases, inl, inr,
}
use potatos.Keyboard.{KeyEvent, Keyboard, update_modifiers, record_event, handle_all}
use potatos.Keyboard.Steps.{keyboard_driver_irq_handler-prefix, keyboard_driver_irq_handler-event}

-- The events of a sequence of scancodes, put in front of those before, the last one first.
abbrev pub events : (codes : List ℕ) (modifiers : ℕ) → List KeyEvent → List KeyEvent
events [] modifiers before = before
events (code ∷ codes) modifiers before =
    let now = if code == 0xe0 then modifiers else update_modifiers code modifiers in
    let event : KeyEvent = record { keycode = code; status_mask = now } in
    events codes now (if code == 0xe0 then before else event ∷ before)

-- The last 255 events stand in the ring, each at its distance behind the next position.
pub record IsRing (s : Keyboard) (history : List KeyEvent) : Type 0 where
  pub position : s.buf_position < 255
  pub slots :
      (age : ℕ) (e : KeyEvent)
      → age < 255
      → get_elem? history age ≡ some e
      → s.keyboard_buffer ((s.buf_position + 254 - age) % 255) ≡ e

record_event-IsRing :
    (e : KeyEvent) (s : Keyboard) (history : List KeyEvent)
    → IsRing s history
    → IsRing (record_event e s) (e ∷ history)
unfolding record_event
record_event-IsRing e s history r = record {
  position = omega arith;
  slots = elim [
    | zero ↦ λ f young here. ground arith
    | suc age ↦ λ f young here. ground (arith, r.position, r.slots age f)
  ];
}

-- After any sequence of interrupts the last 255 events, of the scancodes other than the prefix 0xE0
-- with the modifiers at their time, stand in the ring, in their order, each event at its distance
-- behind the next position, if they did so before.
pub handle_all-IsRing :
    (codes : List ℕ) (s : Keyboard) (history : List KeyEvent)
    → IsRing s history
    → IsRing (handle_all codes s) (events codes s.current_modifiers history)
unfolding handle_all record_event
handle_all-IsRing [] s history r = r
handle_all-IsRing (code ∷ codes) s history r = elim (Bool-cases (code == 0xe0)) [
  | inl prefix ↦
      rw (keyboard_driver_irq_handler-prefix code s prefix, prefix)
        (handle_all-IsRing codes _ history (record { position = r.position; slots = r.slots }))
  | inr other ↦
      rw (keyboard_driver_irq_handler-event code s other, other)
        (handle_all-IsRing codes _ _
          (record_event-IsRing _ _ history (record { position = r.position; slots = r.slots })))
]
