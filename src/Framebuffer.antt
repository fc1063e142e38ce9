-- ===== src/Framebuffer.antt =====
-- src/drivers/framebuffer/framebuffer.c: the pixels in memory and on the screen. `buffer` is the array
-- `framebuffer_buffer` and `screen` the memory at `framebuffer`, by the index of a pixel.
pub mod Fill
pub mod Draw
pub mod Picture
mod Tests
use potatos.Base.{
  ℕ, zero, suc, ◌+◌, ◌*◌, ◌^◌, Option, none, some, ◌==◌, if◌then◌else◌, ltb, bit_or, u32, write8,
}

abbrev pub Pixels : Type 0
Pixels = ℕ → ℕ

pub record Framebuffer : Type 0 where
  pub width : ℕ
  pub height : ℕ
  pub buffer : Pixels
  pub screen : Pixels

abbrev pub color : (r g b : ℕ) → ℕ
color r g b = bit_or (bit_or (r * 2 ^ 16) (g * 2 ^ 8)) b

-- Four pixels from `i` on, taken from `source`.
abbrev pub put_four : (source : Pixels) (i : ℕ) → Pixels → Pixels
put_four source i pixels =
    let first = write8 pixels i (source i) in
    let second = write8 first (i + 1) (source (i + 1)) in
    let third = write8 second (i + 2) (source (i + 2)) in write8 third (i + 3) (source (i + 3))

-- The loops of `clear_framebuffer` and `flip_framebuffer` from `i` on; `none` if the fuel runs out.
pub fill_loop : (fuel i size : ℕ) → (source : Pixels) → Pixels → Option Pixels
fill_loop zero i size source pixels = none
fill_loop (suc fuel) i size source pixels =
    let rest = fill_loop fuel (u32 (i + 4)) size source (put_four source i pixels) in
    if ltb i size then rest else some pixels

pub clear_framebuffer : (fuel r g b : ℕ) → Framebuffer → Option Framebuffer
clear_framebuffer fuel r g b s =
    elim (fill_loop fuel 0 (u32 (s.width * s.height)) (λ i. color r g b) s.buffer) [
      | none ↦ none
      | some pixels ↦ some (record s { buffer = pixels })
    ]

pub flip_framebuffer : (fuel : ℕ) → Framebuffer → Option Framebuffer
flip_framebuffer fuel s = elim (fill_loop fuel 0 (u32 (s.width * s.height)) s.buffer s.screen) [
  | none ↦ none
  | some pixels ↦ some (record s { screen = pixels })
]

pub plot_pixel : (x y r g b : ℕ) → Framebuffer → Framebuffer
plot_pixel x y r g b s =
    let row = u32 (y * s.width) in
    record s { buffer = write8 s.buffer (u32 (x + row)) (color r g b) }
