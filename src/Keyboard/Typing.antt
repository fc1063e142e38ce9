-- ===== src/Keyboard/Typing.antt =====
-- What src/drivers/keyboard.c prints, against a description that knows only whether shift is held.
use mathlib.Core.List.{append_assoc, append-nil}
use mathlib.Core.Path.{subst}
use potatos.Base.{
  ℕ, ◌<◌, ◌≡◌, refl, sym, ap, ◌∙◌, Bool, true, false, not, ◌||◌, List, [], ◌∷◌, ◌++◌, ◌==◌,
  if◌then◌else◌, arith, Bool-cases, inl, inr, bit_clear, bit_clear-set_bit, bit_clear-clear_bit,
}
use potatos.Keyboard.{
  Keyboard, prefix_state, printable, keyboard_get_printable_char, update_modifiers, record_event,
  handle_all,
}
use potatos.Keyboard.Steps.{
  prepared, event_of, keyboard_driver_irq_handler-prefix, keyboard_driver_irq_handler-event,
}

-- Is shift held after a code? A press of either key holds it, a release of either lets it go.
abbrev pub held : Bool → ℕ → Bool
held shift code =
    if code == 42 || code == 54 then true else (if code == 170 || code == 182 then false else shift)

abbrev pub held_after : Bool → List ℕ → Bool
held_after shift [] = shift
held_after shift (code ∷ codes) = held_after (held shift code) codes

-- The characters that a sequence of codes types.
abbrev pub typed : Bool → List ℕ → List ℕ
typed shift [] = []
typed shift (code ∷ codes) =
    let now = held shift code in
    let char = printable (not now) code in
    (if code == 0xe0 || (char == 0) then [] else char ∷ []) ++ typed now codes

-- The modifiers say whether shift is held.
pub record IsHeld (modifiers : ℕ) (shift : Bool) : Type 0 where
  pub byte : modifiers < 256
  pub clear : bit_clear modifiers 3 ≡ not shift

update_modifiers-IsHeld :
    (code modifiers : ℕ) (shift : Bool)
    → IsHeld modifiers shift
    → IsHeld (update_modifiers code modifiers) (held shift code)
unfolding update_modifiers
update_modifiers-IsHeld code modifiers shift h = ground (
  arith,
  bit_clear-set_bit {x = modifiers} {k = 3} {j = 3} h.byte,
  bit_clear-clear_bit {x = modifiers} {k = 3} {j = 3} h.byte,
)

record_event-printed :
    (code : ℕ) (s : Keyboard) (shift : Bool)
    → (code == 0xe0) ≡ false
    → IsHeld s.current_modifiers shift
    → (record_event (event_of code s) (prepared code s)).printed
      ≡ s.printed
        ++ (if code == 0xe0 || (printable (not (held shift code)) code == 0)
            then []
            else printable (not (held shift code)) code ∷ [])
unfolding record_event keyboard_get_printable_char
record_event-printed code s shift other h =
    let now = update_modifiers-IsHeld code s.current_modifiers shift h in
    let clear : bit_clear (update_modifiers code s.current_modifiers) 3 ≡ not (held shift code) =
      now.clear in
    rw (other, clear) (ground (arith, append-nil s.printed))

record_event-IsHeld :
    (code : ℕ) (s : Keyboard) (shift : Bool)
    → IsHeld s.current_modifiers shift
    → IsHeld (record_event (event_of code s) (prepared code s)).current_modifiers (held shift code)
unfolding record_event
record_event-IsHeld code s shift h = update_modifiers-IsHeld code s.current_modifiers shift h

-- After any sequence of scancodes the handler has printed, behind what was printed before, exactly the
-- characters that the codes other than the prefix 0xE0 stand for, each with shift as it was held then,
-- and the modifiers say whether shift is held, if they did so before.
pub handle_all-typed :
    (codes : List ℕ) (s : Keyboard) (shift : Bool)
    → IsHeld s.current_modifiers shift
    → ((handle_all codes s).printed ≡ s.printed ++ typed shift codes)
      × IsHeld (handle_all codes s).current_modifiers (held_after shift codes)
unfolding handle_all
handle_all-typed [] s shift h = (sym (append-nil s.printed), h)
handle_all-typed (code ∷ codes) s shift h = elim (Bool-cases (code == 0xe0)) [
  | inl prefix ↦
      let now = held shift code in
      let here : now ≡ shift = ground arith in
      let rest =
        handle_all-typed codes (record s { current_state = prefix_state }) now
          (subst (IsHeld s.current_modifiers) (sym here) h) in
      let silent : typed shift (code ∷ codes) ≡ typed now codes = rw (prefix) refl in
      subst
        (λ t.
          ((handle_all codes t).printed ≡ s.printed ++ typed shift (code ∷ codes))
          × IsHeld (handle_all codes t).current_modifiers (held_after now codes))
        (sym (keyboard_driver_irq_handler-prefix code s prefix))
        (rest.0 ∙ ap (λ p. s.printed ++ p) (sym silent), rest.1)
  | inr other ↦
      let now = held shift code in
      let s' = record_event (event_of code s) (prepared code s) in
      let rest = handle_all-typed codes s' now (record_event-IsHeld code s shift h) in
      let first = record_event-printed code s shift other h in
      subst
        (λ t.
          ((handle_all codes t).printed ≡ s.printed ++ typed shift (code ∷ codes))
          × IsHeld (handle_all codes t).current_modifiers (held_after now codes))
        (sym (keyboard_driver_irq_handler-event code s other))
        (
          rest.0
              ∙ ap (λ p. p ++ typed now codes) first
              ∙ append_assoc s.printed _ (typed now codes),
          rest.1,
        )
]
