-- ===== src/Idt/Gates.antt =====
-- The interrupt table of src/arch/x86_64/idt/idt.c, as the processor reads its gates.
use potatos.Base.{
  ℕ, zero, suc, ◌+◌, ◌*◌, ◌/◌, ◌%◌, ◌^◌, ◌≤◌, ◌<◌, ◌≡◌, ◌≢◌, refl, ◌∙◌, true, false, Bool,
  Bool-cases, ◌||◌, ◌&&◌, leb, ◌⊎◌, inl, inr, ◌==◌, ltb, arith, List, [], ◌∷◌, bit_and-ones, bit_or,
  bit_and, u8,
}
use potatos.Idt.{
  entry, empty_gate, Gate, set_idt_entry, set_entries, clear_entries, init_idt, vectors, idt_size,
  code_selector, present_bit, interrupt_gate,
}

-- The address that the processor calls.
abbrev pub offset : Gate → ℕ
offset g = g.address_low + 2 ^ 16 * g.address_mid + 2 ^ 32 * g.address_high

-- The fields of the byte `flags`: present, privilege level, and the type of the gate.
abbrev pub is_present : Gate → Bool
is_present g = g.flags / 2 ^ 7 % 2 == 1

abbrev pub privilege : Gate → ℕ
privilege g = g.flags / 2 ^ 5 % 4

abbrev pub gate_type : Gate → ℕ
gate_type g = g.flags % 16

-- A gate of type `dpl` for a routine at `handler`.
pub record IsGate (handler dpl : ℕ) (g : Gate) : Type 0 where
  pub calls : offset g ≡ handler
  pub present : is_present g ≡ true
  pub level : privilege g ≡ dpl
  pub kind : gate_type g ≡ interrupt_gate
  pub segment : g.selector ≡ code_selector
  pub stack : g.ist ≡ 0

flags_lem :
    (d : ℕ) → d < 4 → u8 (bit_or (bit_or present_bit (d * 2 ^ 5)) interrupt_gate) ≡ 142 + 32 * d
flags_lem zero h = refl
flags_lem (suc zero) h = refl
flags_lem (suc (suc zero)) h = refl
flags_lem (suc (suc (suc zero))) h = refl
flags_lem (suc (suc (suc (suc d)))) h = absurd (omega arith)

offset_lem :
    (handler : ℕ)
    → handler < 2 ^ 64
    → handler % 2 ^ 16 % 2 ^ 16
        + 2 ^ 16 * (handler / 2 ^ 16 % 2 ^ 16 % 2 ^ 16)
        + 2 ^ 32 * (handler / 2 ^ 32 % 2 ^ 32)
      ≡ handler
offset_lem handler h = omega arith

entry-IsGate :
    (handler dpl : ℕ) (g : Gate) → handler < 2 ^ 64 → IsGate handler (dpl % 4) (entry handler dpl g)
entry-IsGate handler dpl g h =
    let masked : bit_and dpl 3 ≡ dpl % 4 = bit_and-ones 2 dpl in
    let flags : (entry handler dpl g).flags ≡ 142 + 32 * (dpl % 4) =
      rw masked (flags_lem (dpl % 4) (omega arith)) in
    let low : bit_and handler 0xffff ≡ handler % 2 ^ 16 = bit_and-ones 16 handler in
    let mid : bit_and (handler / 2 ^ 16) 0xffff ≡ handler / 2 ^ 16 % 2 ^ 16 =
      bit_and-ones 16 (handler / 2 ^ 16) in
    record {
      calls = rw (low, mid) (offset_lem handler h);
      present = rw flags (ground arith);
      level = rw flags (omega arith);
      kind = rw flags (omega arith);
      segment = refl;
      stack = refl;
    }

-- Every vector's entry after the calls of `set_idt_entry`.
abbrev member : ℕ → List ℕ → Bool
member v [] = false
member v (x ∷ xs) = x == v || member v xs

set_entries_lem :
    (routine : ℕ → ℕ) (vs : List ℕ) (idt : ℕ → Gate) (v : ℕ)
    → routine v < 2 ^ 64
    → (member v vs ≡ true) ⊎ IsGate (routine v) 0 (idt v)
    → IsGate (routine v) 0 (set_entries routine vs idt v)
unfolding set_entries set_idt_entry
set_entries_lem routine [] idt v h (inl e) = absurd (ground (arith, e))
set_entries_lem routine [] idt v h (inr g) = g
set_entries_lem routine (x ∷ vs) idt v h from = elim (Bool-cases (x == v)) [
  | inl same ↦
      let e : x ≡ v = ground arith in
      set_entries_lem routine vs (set_idt_entry x (routine x) 0 idt) v h
        (inr (rw (same, e) (entry-IsGate (routine v) 0 (idt v) h)))
  | inr other ↦
      set_entries_lem routine vs (set_idt_entry x (routine x) 0 idt) v h
        (elim from [ inl e ↦ inl (ground (arith, e)) | inr g ↦ inr (rw other g) ])
]

set_entries-other :
    (routine : ℕ → ℕ) (vs : List ℕ) (idt : ℕ → Gate) (v : ℕ)
    → member v vs ≡ false
    → set_entries routine vs idt v ≡ idt v
unfolding set_entries set_idt_entry
set_entries-other routine [] idt v h = refl
set_entries-other routine (x ∷ vs) idt v h =
    ground (arith, set_entries-other routine vs (set_idt_entry x (routine x) 0 idt) v)

clear_entries-below :
    (left i : ℕ) (idt : ℕ → Gate) (v : ℕ) → v < i → clear_entries left i idt v ≡ idt v
unfolding clear_entries
clear_entries-below zero i idt v h = refl
clear_entries-below (suc left) i idt v h =
    clear_entries-below left (i + 1) _ v (omega arith) ∙ ground arith

clear_entries_lem :
    (left i : ℕ) (idt : ℕ → Gate) (v : ℕ)
    → i ≤ v
    → v < i + left
    → clear_entries left i idt v ≡ empty_gate
unfolding clear_entries
clear_entries_lem zero i idt v h k = absurd (omega arith)
clear_entries_lem (suc left) i idt v h k = elim (Bool-cases (i == v)) [
  | inl same ↦ clear_entries-below left (i + 1) _ v (ground arith) ∙ rw same refl
  | inr other ↦ clear_entries_lem left (i + 1) _ v (ground arith) (omega arith)
]

member-vectors : (v : ℕ) → member v vectors ≡ (ltb v 19 || (leb 32 v && ltb v 35))
member-vectors v = ground arith

-- The vectors of the exceptions and of the first three interrupts of the controllers.
abbrev pub handled : ℕ → Bool
handled v = ltb v 19 || (leb 32 v && ltb v 35)

-- After `init_idt` the processor finds, at every vector that has a handler, a present gate of the
-- kernel's code that calls the vector's routine, for routines at 64-bit addresses, and at every other
-- vector a gate that is not present.
pub init_idt_lem :
    (routine : ℕ → ℕ) (idt : ℕ → Gate) (v : ℕ)
    → v < 256
    → routine v < 2 ^ 64
    → (handled v ≡ true → IsGate (routine v) 0 ((init_idt routine idt).0 v))
      × (handled v ≡ false → is_present ((init_idt routine idt).0 v) ≡ false)
unfolding init_idt
init_idt_lem routine idt v small h =
    let cleared = clear_entries idt_size 0 idt in
    (
      λ e. set_entries_lem routine vectors cleared v h (inl (member-vectors v ∙ e)),
      λ e.
          let left =
            set_entries-other routine vectors cleared v (member-vectors v ∙ e)
            ∙ clear_entries_lem idt_size 0 idt v (omega arith) (omega arith) in
          rw left refl,
    )

-- An entry is what the call made it, and no other entry changes: the processor reads back the address
-- of any 64-bit handler and the two low bits of the privilege level.
pub set_idt_entry_lem :
    (vector handler dpl v : ℕ) (idt : ℕ → Gate)
    → handler < 2 ^ 64
    → (vector ≡ v → IsGate handler (dpl % 4) (set_idt_entry vector handler dpl idt v))
      × (vector ≢ v → set_idt_entry vector handler dpl idt v ≡ idt v)
unfolding set_idt_entry
set_idt_entry_lem vector handler dpl v idt h =
    let self : (v == v) ≡ true = ground arith in
    (λ e. rw (e, self) (entry-IsGate handler dpl (idt v) h), λ other. ground arith)
