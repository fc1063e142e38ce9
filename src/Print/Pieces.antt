-- ===== src/Print/Pieces.antt =====
-- Formats of `printf` (src/lib/stdio.c) as sequences of pieces, and what each piece is to put.
use potatos.Base.{
  ℕ, ◌≤◌, ◌<◌, ◌^◌, ◌≡◌, ◌≢◌, some, List, [], ◌∷◌, ◌++◌, length, u8, u32, int_index, Memory,
}
use potatos.Text.Strings.{IsString}
use potatos.Number.Digits.{parse, IsTrim}

-- A character that stands for itself, or a percent sign with a letter and the argument that it takes.
pub data Piece : Type 0 where
  literal : ℕ → Piece
  unsigned : ℕ → Piece
  signed : ℕ → Piece
  hex : ℕ → Piece
  binary : ℕ → Piece
  long_binary : ℕ → Piece
  pointer : ℕ → Piece
  text : ℕ → List ℕ → Piece
  char : ℕ → Piece

-- The letter behind the percent sign; `literal` has none.
abbrev pub letter : Piece → ℕ
letter (literal c) = 0
letter (unsigned a) = b'u'
letter (signed a) = b'd'
letter (hex a) = b'x'
letter (binary a) = b'b'
letter (long_binary a) = b'B'
letter (pointer a) = b'p'
letter (text a xs) = b's'
letter (char a) = b'c'

-- The format and the arguments.
abbrev pub spell : List Piece → List ℕ
spell [] = []
spell (literal c ∷ ps) = c ∷ spell ps
spell (unsigned a ∷ ps) = b'%' ∷ b'u' ∷ spell ps
spell (signed a ∷ ps) = b'%' ∷ b'd' ∷ spell ps
spell (hex a ∷ ps) = b'%' ∷ b'x' ∷ spell ps
spell (binary a ∷ ps) = b'%' ∷ b'b' ∷ spell ps
spell (long_binary a ∷ ps) = b'%' ∷ b'B' ∷ spell ps
spell (pointer a ∷ ps) = b'%' ∷ b'p' ∷ spell ps
spell (text a xs ∷ ps) = b'%' ∷ b's' ∷ spell ps
spell (char a ∷ ps) = b'%' ∷ b'c' ∷ spell ps

abbrev pub slots : List Piece → List ℕ
slots [] = []
slots (literal c ∷ ps) = slots ps
slots (unsigned a ∷ ps) = a ∷ slots ps
slots (signed a ∷ ps) = a ∷ slots ps
slots (hex a ∷ ps) = a ∷ slots ps
slots (binary a ∷ ps) = a ∷ slots ps
slots (long_binary a ∷ ps) = a ∷ slots ps
slots (pointer a ∷ ps) = a ∷ slots ps
slots (text a xs ∷ ps) = a ∷ slots ps
slots (char a ∷ ps) = a ∷ slots ps

-- The binary conversions want an `int` that is not negative, a string argument a string.
abbrev pub Good : (fuel : ℕ) → Memory → Piece → Type 0
Good fuel m (literal c) = c ≢ b'%'
Good fuel m (binary a) = u32 a < 2 ^ 31
Good fuel m (long_binary a) = u32 a < 2 ^ 31
Good fuel m (pointer a) = a < 2 ^ 64
Good fuel m (text a xs) = IsString m a xs × (length xs < fuel)
Good fuel m p = Unit {0}

-- What a piece puts: of a number the digits, with upper case letters, with no zero in front or up to the
-- full length. A signed number goes through 64 bits: of a negative one 2 ^ 64 more is put.
abbrev pub Shows : Piece → List ℕ → Type 0
Shows (literal c) t = t ≡ c ∷ []
Shows (unsigned a) t = (parse 10 65 0 t ≡ some (u32 a)) × IsTrim t × (length t ≤ 10)
Shows (signed a) t = (parse 10 65 0 t ≡ some (int_index a)) × IsTrim t × (length t ≤ 20)
Shows (hex a) t = (parse 16 65 0 t ≡ some (int_index a)) × IsTrim t × (length t ≤ 16)
Shows (binary a) t = (parse 2 97 0 t ≡ some (u32 a)) × IsTrim t × (length t ≤ 32)
Shows (long_binary a) t = (parse 2 97 0 t ≡ some (u32 a)) × (length t ≡ 64)
Shows (pointer a) t =
    (digits : List ℕ) × (t ≡ 48 ∷ 120 ∷ digits)
    × (parse 16 65 0 digits ≡ some a)
    × (length digits ≡ 16)
Shows (text a xs) t = t ≡ xs
Shows (char a) t = t ≡ u8 a ∷ []

-- The texts of the pieces, one after another.
abbrev pub Denotes : List Piece → List ℕ → Type 0
Denotes [] t = t ≡ []
Denotes (p ∷ ps) t =
    (first : List ℕ) × (rest : List ℕ) × (t ≡ first ++ rest) × Shows p first × Denotes ps rest
