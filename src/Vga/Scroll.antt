-- ===== src/Vga/Scroll.antt =====
-- Scrolling in src/drivers/vga.c moves every line up by one and blanks the last.
use potatos.Base.{
  ℕ, zero, suc, ◌+◌, ◌-◌, ◌*◌, ◌^◌, ◌≤◌, ◌<◌, ◌≡◌, ltb, leb, ◌&&◌, if◌then◌else◌, arith, fun_ext,
  ap, int_index, int_rounds, sub32, u32, write8,
}
use native.Mathlib.Nat.{mul-le-mul_left}
use potatos.Vga.{Cells, Vga, move_loop, blank_loop, vga_scroll_screen}

-- The lines of a screen moved up by one, the last one blank.
abbrev pub scrolled : (width height : ℕ) → Cells → Cells
scrolled width height cells i =
    if ltb i (width * height - width)
    then cells (i + width)
    else if ltb i (width * height)
    then 0
    else cells i

move_loop_lem :
    (left i width : ℕ) (cells : Cells) (x : ℕ)
    → 1 ≤ width
    → i + left + width < 2 ^ 31
    → move_loop left i width cells x
      ≡ (if leb i x && ltb x (i + left) then cells (x + width) else cells x)
unfolding move_loop
move_loop_lem zero i width cells x wide small = ground arith
move_loop_lem (suc left) i width cells x wide small =
    let here : int_index i ≡ i = ground arith in
    let below : int_index (i + width) ≡ i + width = ground arith in
    let rest =
      move_loop_lem left (i + 1) width (write8 cells i (cells (i + width))) x wide (omega arith) in
    rw (here, below) (ground (arith, rest))

blank_loop_lem :
    (left i start : ℕ) (cells : Cells) (x : ℕ)
    → start + i + left < 2 ^ 31
    → blank_loop left i start cells x
      ≡ (if leb (start + i) x && ltb x (start + i + left) then 0 else cells x)
unfolding blank_loop
blank_loop_lem zero i start cells x small = ground arith
blank_loop_lem (suc left) i start cells x small =
    let here : int_index (start + i) ≡ start + i = ground arith in
    let rest = blank_loop_lem left (i + 1) start (write8 cells (start + i) 0) x (omega arith) in
    rw here (ground (arith, rest))

-- A screen with at least one line and one column, and fewer than 2 ^ 15 cells.
pub record IsSize (width height : ℕ) : Type 0 where
  pub wide : 1 ≤ width
  pub tall : 2 ≤ height
  pub small : width * height < 2 ^ 15

pub vga_scroll_screen_lem :
    (s : Vga)
    → IsSize s.vga_width s.vga_height
    → vga_scroll_screen s ≡ record s { buffer = scrolled s.vga_width s.vga_height s.buffer }
unfolding vga_scroll_screen
vga_scroll_screen_lem s z =
    let w = s.vga_width in
    let a = s.vga_width * s.vga_height in
    let line = mul-le-mul_left w z.tall in
    let cut : sub32 (u32 a) w ≡ a - w = ground arith in
    let rounds : int_rounds (a - w) ≡ a - w = ground arith in
    let blanks : int_rounds w ≡ w = ground arith in
    rw (cut, rounds, blanks)
      (ap (λ (b : Cells). record s { buffer = b })
        (fun_ext (λ x. ground (
          arith,
          blank_loop_lem w 0 (a - w) (move_loop (a - w) 0 w s.buffer) x,
          move_loop_lem (a - w) 0 w s.buffer x,
        ))))
