-- ===== src/Print/Formats.antt =====
-- `printf` of src/lib/stdio.c on a whole format.
use potatos.Base.{
  ℕ, zero, suc, ◌+◌, ◌<◌, ◌≡◌, ◌≢◌, refl, ap, ◌∙◌, false, ◌==◌, arith, Option, some, List, [], ◌∷◌,
  ◌++◌, length, All, Memory,
}
use potatos.Text.Strings.{IsString}
use potatos.Print.{directive, format_loop, printf_text}
use potatos.Print.Pieces.{
  Piece, literal, unsigned, signed, hex, binary, long_binary, pointer, text, char, letter, spell,
  slots, Good, Denotes,
}
use potatos.Print.Directives.{
  Puts, unsigned_lem, signed_lem, hex_lem, binary_lem, long_binary_lem, pointer_lem, text_lem,
  char_lem,
}

module _ (fuel : ℕ) (enough : 64 < fuel) (m locals : Memory) (format : ℕ) where
  loop : (rounds i : ℕ) → List ℕ → Option (List ℕ)
  loop rounds i args = format_loop (directive fuel m locals) m rounds i format args

  -- The loop from index `i` on puts what the pieces denote.
  abbrev Runs : (rounds i : ℕ) → List Piece → Type 0
  Runs rounds i ps = (t : List ℕ) × (loop rounds i (slots ps) ≡ some t) × Denotes ps t

  percent :
      (rounds i a : ℕ) (l : ℕ) (args left first rest : List ℕ)
      → format + i ≡ a
      → m a ≡ b'%'
      → m (a + 1) ≡ l
      → directive fuel m locals l args ≡ some (first, left)
      → loop rounds (i + 2) left ≡ some rest
      → loop (suc rounds) i args ≡ some (first ++ rest)
  unfolding loop format_loop
  percent rounds i a l args left first rest at sign at_letter puts runs =
      let here : m (format + i) ≡ b'%' = ap m at ∙ sign in
      let next : m (format + (i + 1)) ≡ l = ap m (omega arith) ∙ at_letter in
      rw (format_loop, here, here, next, puts, runs) refl

  at_end : (rounds i a : ℕ) → format + i ≡ a → m a ≡ 0 → loop (suc rounds) i [] ≡ some []
  unfolding loop format_loop
  at_end rounds i a at zero_byte =
      let here : m (format + i) ≡ 0 = ap m at ∙ zero_byte in rw (format_loop, here) refl

  plain :
      (rounds i a c : ℕ) (args rest : List ℕ)
      → format + i ≡ a
      → m a ≡ c
      → c ≢ 0
      → c ≢ b'%'
      → loop rounds (i + 1) args ≡ some rest
      → loop (suc rounds) i args ≡ some (c ∷ rest)
  unfolding loop format_loop
  plain rounds i a c args rest at char_at nonzero other runs =
      let here : m (format + i) ≡ c = ap m at ∙ char_at in
      let more : (c == 0) ≡ false = ground arith in
      let no_sign : (c == b'%') ≡ false = ground arith in
      rw (format_loop, here, more, here, no_sign, here, runs) refl

  -- A piece with a percent sign in front of others.
  step :
      (p : Piece) (ps : List Piece) (rounds i at arg : ℕ)
      → format + i ≡ at
      → IsString m at (b'%' ∷ letter p ∷ spell ps)
      → Puts fuel enough m locals p arg (slots ps)
      → Runs rounds (i + 2) ps
      → (t : List ℕ) × (loop (suc rounds) i (arg ∷ slots ps) ≡ some t) × Denotes (p ∷ ps) t
  step p ps rounds i at arg e s puts runs = (
    puts.0 ++ runs.0,
    percent rounds i at (letter p) (arg ∷ slots ps) (slots ps) puts.0 runs.0 e s.0 s.2.0 puts.1
        runs.1,
    (puts.0, runs.0, refl, puts.2, runs.2),
  )

  loop_lem :
      (ps : List Piece) (rounds i at : ℕ)
      → format + i ≡ at
      → IsString m at (spell ps)
      → All (Good fuel m) ps
      → length (spell ps) < rounds
      → Runs rounds i ps
  loop_lem ps zero i at e s good room = absurd (omega arith)
  loop_lem [] (suc rounds) i at e s good room = ([], at_end rounds i at e s, refl)
  loop_lem (literal c ∷ ps) (suc rounds) i at e s good room =
      let (t, runs, means) =
        loop_lem ps rounds (i + 1) (at + 1) (omega arith) s.2 good.1 (omega arith) in
      (
        c ∷ t,
        plain rounds i at c (slots ps) t e s.0 s.1 good.0 runs,
        (c ∷ [], t, refl, refl, means),
      )
  loop_lem (unsigned a ∷ ps) (suc rounds) i at e s good room =
      step (unsigned a) ps rounds i at a e s (unsigned_lem fuel enough m locals a (slots ps))
        (loop_lem ps rounds (i + 2) (at + 1 + 1) (omega arith) s.2.2 good.1 (omega arith))
  loop_lem (signed a ∷ ps) (suc rounds) i at e s good room =
      step (signed a) ps rounds i at a e s (signed_lem fuel enough m locals a (slots ps))
        (loop_lem ps rounds (i + 2) (at + 1 + 1) (omega arith) s.2.2 good.1 (omega arith))
  loop_lem (hex a ∷ ps) (suc rounds) i at e s good room =
      step (hex a) ps rounds i at a e s (hex_lem fuel enough m locals a (slots ps))
        (loop_lem ps rounds (i + 2) (at + 1 + 1) (omega arith) s.2.2 good.1 (omega arith))
  loop_lem (binary a ∷ ps) (suc rounds) i at e s good room =
      step (binary a) ps rounds i at a e s (binary_lem fuel enough m locals a (slots ps) good.0)
        (loop_lem ps rounds (i + 2) (at + 1 + 1) (omega arith) s.2.2 good.1 (omega arith))
  loop_lem (long_binary a ∷ ps) (suc rounds) i at e s good room =
      step (long_binary a) ps rounds i at a e s
        (long_binary_lem fuel enough m locals a (slots ps) good.0)
        (loop_lem ps rounds (i + 2) (at + 1 + 1) (omega arith) s.2.2 good.1 (omega arith))
  loop_lem (pointer a ∷ ps) (suc rounds) i at e s good room =
      step (pointer a) ps rounds i at a e s (pointer_lem fuel enough m locals a (slots ps) good.0)
        (loop_lem ps rounds (i + 2) (at + 1 + 1) (omega arith) s.2.2 good.1 (omega arith))
  loop_lem (text a xs ∷ ps) (suc rounds) i at e s good room =
      step (text a xs) ps rounds i at a e s
        (text_lem fuel enough m locals a xs (slots ps) good.0.0 good.0.1)
        (loop_lem ps rounds (i + 2) (at + 1 + 1) (omega arith) s.2.2 good.1 (omega arith))
  loop_lem (char a ∷ ps) (suc rounds) i at e s good room =
      step (char a) ps rounds i at a e s (char_lem fuel enough m locals a (slots ps))
        (loop_lem ps rounds (i + 2) (at + 1 + 1) (omega arith) s.2.2 good.1 (omega arith))

  -- The text of `printf`, for a format that is a string of pieces with their arguments, returns, with
  -- fuel for 65 characters and for every string argument and more rounds than the format has
  -- characters: it is what the pieces denote, one after another.
  pub printf_text_lem :
      (ps : List Piece) (rounds : ℕ)
      → IsString m format (spell ps)
      → All (Good fuel m) ps
      → length (spell ps) < rounds
      → (t : List ℕ) × (printf_text rounds fuel m locals format (slots ps) ≡ some t) × Denotes ps t
  unfolding loop printf_text
  printf_text_lem ps rounds s good room = loop_lem ps rounds 0 format (omega arith) s good room
