-- ===== src/Print.antt =====
-- src/lib/stdio.c, and `printfs` of src/drivers/serial.c, which has the same loop. A format and its
-- arguments determine the characters; `put_all` then puts each of them on the screen and, since DEBUG
-- is defined, on the serial port. Arguments are 64-bit slots, in order.
pub mod Pieces
pub mod Directives
pub mod Formats
pub mod Output
mod Tests
use mathlib.Core.Option
use potatos.Base.{
  ℕ, zero, suc, ◌+◌, ◌-◌, ◌%◌, ◌^◌, Bool, true, false, ◌||◌, Option, none, some, List, [], ◌∷◌,
  ◌++◌, ◌==◌, if◌then◌else◌, u8, u32, u64, int_index, Memory,
}
use potatos.Text.{strlen}
use potatos.Number.{itoa, itoa64}
use potatos.Vga.{Vga, vga_write_char, vga_get_cursor_pos}
use potatos.Serial.{Serial, write_serial}

-- The characters of the string at `str` from index `i` on, as the loop of `putstr` reads them.
pub read_loop : (fuel i : ℕ) → Memory → ℕ → Option (List ℕ)
read_loop zero i m str = none
read_loop (suc fuel) i m str =
    let rest = Option.map (λ t. m (str + i) ∷ t) (read_loop fuel (i + 1) m str) in
    if m (str + i) == 0 then some [] else rest

-- What `putstr` puts.
pub putstr : (fuel : ℕ) → Memory → ℕ → Option (List ℕ)
putstr fuel m str = read_loop fuel 0 m str

-- What `puts` puts.
pub puts : (fuel : ℕ) → Memory → ℕ → Option (List ℕ)
puts fuel m str =
    Option.map (λ t. elim t [ [] ↦ [] | x ∷ xs ↦ x ∷ xs ++ 10 ∷ [] ]) (read_loop fuel 0 m str)

-- A number in a local array at address 0, which holds `locals` before.
abbrev pub number64 : (fuel : ℕ) → Memory → (value base : ℕ) → Option Memory
number64 fuel locals value base = itoa64 fuel locals value 0 base locals

abbrev pub number32 : (fuel : ℕ) → Memory → (value base : ℕ) → Option Memory
number32 fuel locals value base = itoa fuel value 0 base locals

abbrev pub shown : (fuel : ℕ) → Option Memory → Option (List ℕ)
shown fuel none = none
shown fuel (some m) = putstr fuel m 0

abbrev pub zeros : ℕ → List ℕ
zeros zero = []
zeros (suc n) = 48 ∷ zeros n

-- The string in the local array behind as many zeros as it lacks.
abbrev pub padded : (fuel width : ℕ) → Option Memory → Option (List ℕ)
padded fuel width none = none
padded fuel width (some m) = elim (strlen fuel m 0) [
  | none ↦ none
  | some len ↦ Option.map (λ t. zeros (width - len) ++ t) (putstr fuel m 0)
]

-- `va_arg`; without an argument left the source is undefined, and this is `none`.
abbrev pub with_arg : List ℕ → (ℕ → Option (List ℕ)) → Option (List ℕ × List ℕ)
with_arg [] f = none
with_arg (a ∷ args) f = Option.map (λ t. (t, args)) (f a)

module _ (fuel : ℕ) (m locals : Memory) where
  -- The `switch` of `printf`: what a letter behind a percent sign puts, and the arguments left.
  pub directive : (letter : ℕ) → List ℕ → Option (List ℕ × List ℕ)
  directive letter args =
      if letter == b'u'
      then with_arg args (λ a. shown fuel (number64 fuel locals (u32 a) 10))
      else if letter == b'i' || letter == b'd'
      then with_arg args (λ a. shown fuel (number64 fuel locals (int_index a) 10))
      else if letter == b'x'
      then with_arg args (λ a. shown fuel (number64 fuel locals (int_index a) 16))
      else if letter == b'b'
      then with_arg args (λ a. shown fuel (number32 fuel locals (u32 a) 2))
      else if letter == b'B'
      then with_arg args (λ a. padded fuel 64 (number32 fuel locals (u32 a) 2))
      else if letter == b'p'
      then with_arg args
          (λ a. Option.map (λ t. 48 ∷ 120 ∷ t) (padded fuel 16 (number64 fuel locals (u64 a) 16)))
      else if letter == b's'
      then with_arg args (λ a. putstr fuel m a)
      else if letter == b'c'
      then with_arg args (λ a. some (u8 a ∷ []))
      else some (b'%' ∷ letter ∷ [], args)

  -- The `switch` of `printfs`.
  pub directive_serial : (letter : ℕ) → List ℕ → Option (List ℕ × List ℕ)
  directive_serial letter args =
      if letter == b'u'
      then with_arg args (λ a. shown fuel (number64 fuel locals (u32 a) 10))
      else if letter == b'i' || letter == b'd'
      then with_arg args (λ a. shown fuel (number32 fuel locals (u32 a) 10))
      else if letter == b'x'
      then with_arg args (λ a. shown fuel (number64 fuel locals (int_index a) 16))
      else if letter == b'b'
      then with_arg args (λ a. shown fuel (number32 fuel locals (u32 a) 2))
      else if letter == b'p'
      then with_arg args
          (λ a. Option.map (λ t. 48 ∷ 120 ∷ t) (padded fuel 16 (number64 fuel locals (u64 a) 16)))
      else if letter == b's'
      then with_arg args (λ a. putstr fuel m a)
      else if letter == b'c'
      then with_arg args (λ a. some (u8 a ∷ []))
      else some (b'%' ∷ letter ∷ [], args)

-- The loop over the format at index `i`, for either `switch`.
module _ (switch : ℕ → List ℕ → Option (List ℕ × List ℕ)) (m : Memory) where
  pub format_loop : (rounds i format : ℕ) → List ℕ → Option (List ℕ)
  format_loop zero i format args = none
  format_loop (suc rounds) i format args = elim (m (format + i) == 0) [
    | true ↦ some []
    | false ↦ elim (m (format + i) == b'%') [
      | false ↦ Option.map (λ t. m (format + i) ∷ t) (format_loop rounds (i + 1) format args)
      | true ↦ elim (switch (m (format + (i + 1))) args) [
        | none ↦ none
        | some (text, left) ↦ Option.map (λ t. text ++ t) (format_loop rounds (i + 2) format left)
      ]
    ]
  ]

-- The characters that `printf` and `printfs` put.
pub printf_text : (rounds fuel : ℕ) → (m locals : Memory) → (format : ℕ) → List ℕ → Option (List ℕ)
printf_text rounds fuel m locals format args =
    format_loop (directive fuel m locals) m rounds 0 format args

pub printfs_text : (rounds fuel : ℕ) → (m locals : Memory) → (format : ℕ) → List ℕ → Option (List ℕ)
printfs_text rounds fuel m locals format args =
    format_loop (directive_serial fuel m locals) m rounds 0 format args

-- Where the characters go.
pub record Console : Type 0 where
  pub vga : Vga
  pub serial : Serial

pub putchar : (fuel ch : ℕ) → Console → Option Console
putchar fuel ch c =
    let (x, y) = vga_get_cursor_pos c.vga in
    elim (vga_write_char fuel ch x y c.vga) [
      | none ↦ none
      | some vga ↦
          Option.map (λ serial. record { vga = vga; serial = serial })
            (write_serial fuel ch c.serial)
    ]

-- One character after another.
pub put_all : (fuel : ℕ) → List ℕ → Console → Option Console
put_all fuel [] c = some c
put_all fuel (x ∷ xs) c = elim (putchar fuel x c) [ none ↦ none | some c' ↦ put_all fuel xs c' ]

pub printf :
    (rounds fuel : ℕ) → (m locals : Memory) → (format : ℕ) → List ℕ → Console → Option Console
printf rounds fuel m locals format args c = elim (printf_text rounds fuel m locals format args) [
  | none ↦ none
  | some text ↦ put_all fuel text c
]
