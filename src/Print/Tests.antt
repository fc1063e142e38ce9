-- ===== src/Print/Tests.antt =====
-- `printf` of src/lib/stdio.c at concrete formats.
use potatos.Base.{ℕ, ◌≡◌, refl, ◌==◌, if◌then◌else◌, arith, some, List, [], ◌∷◌, Memory}
use potatos.Text.Strings.{IsString}
use potatos.Print.{Console, directive, format_loop, printf_text, printf}
use potatos.Print.Pieces.{Piece, literal, unsigned, spell, slots, Denotes}
use potatos.Print.Output.{IsWorking, HasPut, printf_lem}

abbrev console : Console
console = record {
  vga = record {
    buffer = λ i. 0;
    cursor_x = 0;
    cursor_y = 0;
    vga_color = 7;
    vga_width = 80;
    vga_height = 25;
    ports = [];
  };
  serial = record { status = λ read. 0x60; reads = 0; ports = [] };
}

console-IsWorking : IsWorking 1 console
console-IsWorking = record {
  screen = record {
    size = record { wide = omega arith; tall = omega arith; small = omega arith };
    column = omega arith;
    row = omega arith;
  };
  line = λ read. (0, omega arith, ground arith);
}

-- "<%u" at 100.
abbrev image : Memory
image a = if a == 100 then 60 else if a == 101 then 37 else if a == 102 then 117 else 0

abbrev pieces : List Piece
pieces = literal 60 ∷ unsigned 42 ∷ []

pieces-IsString : IsString image 100 (spell pieces)
pieces-IsString = (refl, ground arith, (refl, ground arith, (refl, ground arith, refl)))

printf_lem_example :
    (c' : Console) × (t : List ℕ) × (printf 4 65 image image 100 (slots pieces) console ≡ some c')
    × Denotes pieces t
    × HasPut t console c'
    × IsWorking 1 c'
printf_lem_example =
    printf_lem 1 63 (omega arith) image image 100 pieces 4 console (omega arith) pieces-IsString
      (ground arith, (tt, tt)) (omega arith) console-IsWorking

-- "<%c" with 65.
puts_letter :
    printf_text 4 10 (λ a. if a == 102 then 99 else image a) image 100 (65 ∷ [])
    ≡ some (60 ∷ 65 ∷ [])
unfolding printf_text format_loop directive
puts_letter = refl
