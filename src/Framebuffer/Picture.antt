-- ===== src/Framebuffer/Picture.antt =====
-- `draw_background_image` of src/drivers/framebuffer/framebuffer.c, with the macro `HEADER_PIXEL` of
-- include/utils/background.h. The characters of the picture are in `m`, which the drawing leaves.
pub mod Codes
pub mod Painted
use potatos.Base.{
  ℕ, zero, suc, ◌+◌, ◌*◌, ◌-◌, ◌/◌, ◌^◌, ◌&&◌, if◌then◌else◌, ltb, bit_and, bit_or, u8, u32, sub32,
  Memory,
}
use potatos.Framebuffer.{Framebuffer, plot_pixel}

-- A `char`, which is signed, as an `int`.
abbrev pub char_int : ℕ → ℕ
char_int c = if ltb c 128 then c else c + (2 ^ 32 - 2 ^ 8)

-- `n >> k` of an `int`.
abbrev pub int_shift : (n k : ℕ) → ℕ
int_shift n k = if ltb n (2 ^ 31) then n / 2 ^ k else n / 2 ^ k + (2 ^ 32 - 2 ^ (32 - k))

-- `data[i] - 33`
abbrev pub code : Memory → ℕ → ℕ
code m a = sub32 (char_int (m a)) 33

-- `HEADER_PIXEL`: the three bytes of the pixel whose four characters start at `data`.
abbrev pub header_pixel : Memory → ℕ → ℕ × ℕ × ℕ
header_pixel m data_at = (
  u8 (bit_or (u32 (code m data_at * 2 ^ 2)) (int_shift (code m (data_at + 1)) 4)),
  u8 (
      bit_or (u32 (bit_and (code m (data_at + 1)) 0xf * 2 ^ 4))
        (int_shift (code m (data_at + 2)) 2)),
  u8 (bit_or (u32 (bit_and (code m (data_at + 2)) 0x3 * 2 ^ 6)) (code m (data_at + 3))),
)

-- The four pixels of the screen that show the pixel `x`, `y` of the picture.
pub plot_four : (x y : ℕ) → ℕ × ℕ × ℕ → Framebuffer → Framebuffer
plot_four x y (r, g, b) s =
    let s1 = plot_pixel (u32 (x * 2)) (u32 (y * 2)) r g b s in
    let s2 = plot_pixel (u32 (u32 (x * 2) + 1)) (u32 (y * 2)) r g b s1 in
    let s3 = plot_pixel (u32 (x * 2)) (u32 (u32 (y * 2) + 1)) r g b s2 in
    plot_pixel (u32 (u32 (x * 2) + 1)) (u32 (u32 (y * 2) + 1)) r g b s3

-- The inner loop at `x`, with the pointer `data` that it leaves.
pub column_loop : (left x y data_at : ℕ) → Memory → Framebuffer → ℕ × Framebuffer
column_loop zero x y data_at m s = (data_at, s)
column_loop (suc left) x y data_at m s =
    column_loop left (x + 1) y (data_at + 4) m
      (if ltb x (800 / 2) && ltb y (600 / 2) then plot_four x y (header_pixel m data_at) s else s)

pub row_loop : (left y data_at : ℕ) → Memory → Framebuffer → Framebuffer
unfolding column_loop
row_loop zero y data_at m s = s
row_loop (suc left) y data_at m s =
    let (next, s') = column_loop (800 / 2) 0 y data_at m s in row_loop left (y + 1) next m s'

pub draw_background_image : (header_data : ℕ) → Memory → Framebuffer → Framebuffer
unfolding row_loop
draw_background_image header_data m s = row_loop (600 / 2) 0 header_data m s
