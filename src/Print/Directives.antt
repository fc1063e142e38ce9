-- ===== src/Print/Directives.antt =====
-- Each letter of the `switch` in `printf` of src/lib/stdio.c.
use potatos.Base.{
  ℕ, zero, suc, ◌+◌, ◌-◌, ◌≤◌, ◌<◌, ◌^◌, ◌≡◌, refl, ap, ◌∙◌, false, true, ◌==◌, arith, Option, some,
  inl, List, [], ◌∷◌, ◌++◌, length, length-append, u8, u32, u64, int_index, Memory,
}
use potatos.Text.Strings.{IsString, strlen_lem}
use potatos.Number.Digits.{parse, parse-cons, IsTrim}
use potatos.Number.Text64.{itoa64_lem}
use potatos.Number.Signed.{IsSigned, itoa_lem}
use potatos.Number.{is_minus}
use potatos.Print.{read_loop, putstr, zeros, shown, padded, number64, number32, directive}
use potatos.Print.Pieces.{
  Piece, unsigned, signed, hex, binary, long_binary, pointer, text, char, letter, Shows,
}

read_loop_lem :
    (xs : List ℕ) (fuel i : ℕ) (m : Memory) (str a : ℕ)
    → str + i ≡ a
    → IsString m a xs
    → length xs < fuel
    → read_loop fuel i m str ≡ some xs
unfolding read_loop
read_loop_lem xs zero i m str a at s enough = absurd (omega arith)
read_loop_lem [] (suc fuel) i m str a at s enough =
    let done : (m (str + i) == 0) ≡ true = ground (arith, ap m at) in rw (read_loop, done) refl
read_loop_lem (x ∷ xs) (suc fuel) i m str a at s enough =
    let here : m (str + i) ≡ x = ap m at ∙ s.0 in
    let more : (x == 0) ≡ false = ground (arith, s.1) in
    let rest = read_loop_lem xs fuel (i + 1) m str (a + 1) (omega arith) s.2 (omega arith) in
    rw (read_loop, here, more, rest) refl

-- `putstr` puts the characters of a string, with more fuel than characters.
pub putstr_lem :
    (xs : List ℕ) (fuel : ℕ) (m : Memory) (str : ℕ)
    → IsString m str xs
    → length xs < fuel
    → putstr fuel m str ≡ some xs
unfolding putstr
putstr_lem xs fuel m str s enough = read_loop_lem xs fuel 0 m str str (omega arith) s enough

parse-zeros :
    (n base ten : ℕ) (t : List ℕ) → 2 ≤ base → parse base ten 0 (zeros n ++ t) ≡ parse base ten 0 t
parse-zeros zero base ten t lo = refl
parse-zeros (suc n) base ten t lo =
    parse-cons base ten 0 48 0 (zeros n ++ t) (ground arith)
    ∙ ap (λ s. parse base ten s (zeros n ++ t)) (omega arith)
    ∙ parse-zeros n base ten t lo

length-zeros : (n : ℕ) → length (zeros n) ≡ n
length-zeros zero = refl
length-zeros (suc n) = ap suc (length-zeros n)

-- A local array that holds a string.
record Holds (t : List ℕ) (fuel : ℕ) (o : Option Memory) : Type 0 where
  array : Memory
  made : o ≡ some array
  string : IsString array 0 t
  room : length t < fuel

shown_lem : (t : List ℕ) (fuel : ℕ) (o : Option Memory) → Holds t fuel o → shown fuel o ≡ some t
shown_lem t fuel o h = rw h.made (putstr_lem t fuel h.array 0 h.string h.room)

padded_lem :
    (t : List ℕ) (fuel width : ℕ) (o : Option Memory)
    → Holds t fuel o
    → padded fuel width o ≡ some (zeros (width - length t) ++ t)
padded_lem t fuel width o h =
    let size = strlen_lem t fuel h.array 0 h.string h.room in
    let characters = putstr_lem t fuel h.array 0 h.string h.room in
    rw h.made (ground (arith, size, characters))

length-padded :
    (t : List ℕ) (width : ℕ) → length t ≤ width → length (zeros (width - length t) ++ t) ≡ width
length-padded t width fits =
    length-append (zeros (width - length t)) t ∙ omega (arith, length-zeros (width - length t))

module _ (fuel : ℕ) (enough : 64 < fuel) (locals : Memory) where
  -- The digits of an unsigned number.
  number64_lem :
      (k value base : ℕ)
      → 1 ≤ k
      → k ≤ 64
      → value < base ^ k
      → 2 ≤ base
      → base ≤ 16
      → (t : List ℕ) × Holds t fuel (number64 fuel locals value base)
        × (parse base 65 0 t ≡ some value)
        × IsTrim t
        × (length t ≤ k)
  number64_lem k value base some_digit room small lo hi =
      let (m', runs, n) =
        itoa64_lem k fuel locals value 0 base locals some_digit room (omega arith) small lo hi in
      (
        n.text,
        record { array = m'; made = runs; string = n.string; room = omega (arith, n.short) },
        n.number,
        n.trim,
        n.short,
      )

  number32_lem :
      (value : ℕ)
      → value < 2 ^ 31
      → (t : List ℕ) × Holds t fuel (number32 fuel locals value 2)
        × (parse 2 97 0 t ≡ some value)
        × IsTrim t
        × (length t ≤ 32)
  number32_lem value small =
      let (m', runs, n) =
        itoa_lem fuel value 0 2 locals (omega arith) (omega arith) (omega arith) (omega arith)
          (inl small) in
      let plus : is_minus value ≡ false = ground arith in
      let p : IsSigned 2 false value 0 locals m' = rw plus at n in
      (
        p.digits,
        record { array = m'; made = runs; string = p.string; room = omega (arith, p.short) },
        p.number,
        p.trim,
        p.short,
      )

module _ (fuel : ℕ) (enough : 64 < fuel) (m locals : Memory) where
  -- What the letter of a piece puts.
  abbrev pub Puts : Piece → ℕ → List ℕ → Type 0
  Puts p a args =
      (t : List ℕ) × (directive fuel m locals (letter p) (a ∷ args) ≡ some (t, args)) × Shows p t

  pub unsigned_lem : (a : ℕ) (args : List ℕ) → Puts (unsigned a) a args
  unfolding directive
  unsigned_lem a args =
      let (t, h, number, trim, short) =
        number64_lem fuel enough locals 10 (u32 a) 10 (omega arith) (omega arith) (omega arith)
          (omega arith) (omega arith) in
      (t, rw (shown_lem t fuel _ h) refl, (number, trim, short))

  pub signed_lem : (a : ℕ) (args : List ℕ) → Puts (signed a) a args
  unfolding directive
  signed_lem a args =
      let (t, h, number, trim, short) =
        number64_lem fuel enough locals 20 (int_index a) 10 (omega arith) (omega arith)
          (ground arith) (omega arith) (omega arith) in
      (t, rw (shown_lem t fuel _ h) refl, (number, trim, short))

  pub hex_lem : (a : ℕ) (args : List ℕ) → Puts (hex a) a args
  unfolding directive
  hex_lem a args =
      let (t, h, number, trim, short) =
        number64_lem fuel enough locals 16 (int_index a) 16 (omega arith) (omega arith)
          (ground arith) (omega arith) (omega arith) in
      (t, rw (shown_lem t fuel _ h) refl, (number, trim, short))

  pub binary_lem : (a : ℕ) (args : List ℕ) → u32 a < 2 ^ 31 → Puts (binary a) a args
  unfolding directive
  binary_lem a args small =
      let (t, h, number, trim, short) = number32_lem fuel enough locals (u32 a) small in
      (t, rw (shown_lem t fuel _ h) refl, (number, trim, short))

  pub long_binary_lem : (a : ℕ) (args : List ℕ) → u32 a < 2 ^ 31 → Puts (long_binary a) a args
  unfolding directive
  long_binary_lem a args small =
      let (t, h, number, trim, short) = number32_lem fuel enough locals (u32 a) small in
      (
        zeros (64 - length t) ++ t,
        rw (padded_lem t fuel 64 _ h) refl,
        (
          parse-zeros (64 - length t) 2 97 t (omega arith) ∙ number,
          length-padded t 64 (omega arith),
        ),
      )

  pub pointer_lem : (a : ℕ) (args : List ℕ) → a < 2 ^ 64 → Puts (pointer a) a args
  unfolding directive
  pointer_lem a args small =
      let (t, h, number, trim, short) =
        number64_lem fuel enough locals 16 (u64 a) 16 (omega arith) (omega arith) (omega arith)
          (omega arith) (omega arith) in
      let whole : u64 a ≡ a = omega arith in
      (
        48 ∷ 120 ∷ zeros (16 - length t) ++ t,
        rw (padded_lem t fuel 16 _ h) refl,
        (
          zeros (16 - length t) ++ t,
          refl,
          parse-zeros (16 - length t) 16 65 t (omega arith) ∙ number ∙ ap some whole,
          length-padded t 16 short,
        ),
      )

  pub text_lem :
      (a : ℕ) (xs args : List ℕ) → IsString m a xs → length xs < fuel → Puts (text a xs) a args
  unfolding directive
  text_lem a xs args s room = (xs, rw (putstr_lem xs fuel m a s room) refl, refl)

  pub char_lem : (a : ℕ) (args : List ℕ) → Puts (char a) a args
  unfolding directive
  char_lem a args = (u8 a ∷ [], refl, refl)
