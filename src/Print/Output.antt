-- ===== src/Print/Output.antt =====
-- Where the characters of `printf` (src/lib/stdio.c) go: `putchar` on the screen and the serial port.
use mathlib.Core.Path.{subst}
use potatos.Base.{
  ℕ, suc, ◌≤◌, ◌<◌, ◌≡◌, refl, sym, ap, ◌∙◌, some, List, [], ◌∷◌, length, All, Memory,
}
use potatos.Text.Strings.{IsString}
use potatos.Vga.{Vga}
use potatos.Vga.Typing.{IsScreen, announced, typed, vga_write_char_lem}
use potatos.Serial.Wait.{IsAlive}
use potatos.Serial.Lines.{HasSent, HasSent-append, HasSent-nil, write_serial-HasSent}
use potatos.Print.{Console, putchar, put_all, printf}
use potatos.Print.Pieces.{Piece, spell, slots, Good, Denotes}
use potatos.Print.Formats.{printf_text_lem}

-- The screen after a text is typed.
abbrev pub typed_all : List ℕ → Vga → Vga
typed_all [] s = s
typed_all (x ∷ xs) s = typed_all xs (announced (typed x s))

-- A console whose cursor is on the screen and whose serial port takes bytes.
pub record IsWorking (patience : ℕ) (c : Console) : Type 0 where
  pub screen : IsScreen c.vga
  pub line : IsAlive patience c.serial.status

-- The text is typed on the screen and sent on the serial port.
pub record HasPut (xs : List ℕ) (c c' : Console) : Type 0 where
  pub shown : c'.vga ≡ typed_all xs c.vga
  pub sent : HasSent xs c.serial c'.serial

module _ (patience fuel : ℕ) (enough : patience ≤ suc (suc fuel)) where
  putchar_lem :
      (ch : ℕ) (c : Console)
      → IsWorking patience c
      → (c' : Console) × (putchar (suc (suc fuel)) ch c ≡ some c')
        × HasPut (ch ∷ []) c c'
        × IsWorking patience c'
  unfolding putchar
  putchar_lem ch c w =
      let screen = vga_write_char_lem fuel c.vga w.screen ch in
      let (serial, runs, sends) =
        write_serial-HasSent patience (suc (suc fuel)) enough ch c.serial w.line in
      (
        record { vga = announced (typed ch c.vga); serial = serial },
        rw (putchar, screen.0, runs) refl,
        record { shown = refl; sent = sends },
        record { screen = screen.1; line = subst (IsAlive patience) (sym sends.device) w.line },
      )

  pub put_all_lem :
      (xs : List ℕ) (c : Console)
      → IsWorking patience c
      → (c' : Console) × (put_all (suc (suc fuel)) xs c ≡ some c')
        × HasPut xs c c'
        × IsWorking patience c'
  unfolding put_all
  put_all_lem [] c w = (c, refl, record { shown = refl; sent = HasSent-nil c.serial }, w)
  put_all_lem (x ∷ xs) c w =
      let (d, first, p, v) = putchar_lem x c w in
      let (e, rest, q, u) = put_all_lem xs d v in
      (
        e,
        rw (put_all, first) rest,
        record {
          shown = q.shown ∙ ap (typed_all xs) p.shown;
          sent = HasSent-append (x ∷ []) xs c.serial d.serial e.serial p.sent q.sent;
        },
        u,
      )

  -- `printf` returns, for a format that is a string of pieces with their arguments, with fuel for 65
  -- characters, for every string argument and for the serial port's patience, and more rounds than
  -- the format has characters: a text that is what the pieces denote, one after another, is typed on
  -- the screen and sent on the serial port, if the cursor is on the screen and the port takes bytes,
  -- and so it is afterwards.
  pub printf_lem :
      (m locals : Memory) (format : ℕ) (ps : List Piece) (rounds : ℕ) (c : Console)
      → 64 < suc (suc fuel)
      → IsString m format (spell ps)
      → All (Good (suc (suc fuel)) m) ps
      → length (spell ps) < rounds
      → IsWorking patience c
      → (c' : Console) × (t : List ℕ) × (printf rounds (suc (suc fuel)) m locals format (slots ps) c
          ≡ some c')
        × Denotes ps t
        × HasPut t c c'
        × IsWorking patience c'
  unfolding printf
  printf_lem m locals format ps rounds c room s good more w =
      let (t, text, means) =
        printf_text_lem (suc (suc fuel)) room m locals format ps rounds s good more in
      let (c', puts, put, v) = put_all_lem t c w in (c', t, rw (printf, text) puts, means, put, v)
