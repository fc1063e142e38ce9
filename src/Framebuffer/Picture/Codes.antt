-- ===== src/Framebuffer/Picture/Codes.antt =====
-- The coding of the picture of include/utils/background.h: the 24 bits of a pixel in four characters of
-- 6 bits, from 33 on.
use potatos.Base.{
  ℕ, ◌+◌, ◌*◌, ◌/◌, ◌%◌, ◌^◌, ◌<◌, ◌≡◌, refl, ◌∙◌, ap, arith, bit_and, bit_or, bit_and-ones,
  bit_or-fields, u8, u32, Memory,
}
use potatos.Framebuffer.Picture.{code, int_shift, header_pixel}

-- The four characters from `a` on code the pixel.
pub record Codes (m : Memory) (a r g b : ℕ) : Type 0 where
  pub red_small : r < 256
  pub green_small : g < 256
  pub blue_small : b < 256
  pub first : m a ≡ 33 + r / 4
  pub second : m (a + 1) ≡ 33 + (r % 4 * 16 + g / 16)
  pub third : m (a + 2) ≡ 33 + (g % 16 * 4 + b / 64)
  pub fourth : m (a + 3) ≡ 33 + b % 64

joined :
    (k high low : ℕ) {word bits byte : ℕ}
    → word ≡ high * 2 ^ k
    → bits ≡ low
    → low < 2 ^ k
    → byte ≡ high * 2 ^ k + low
    → byte < 256
    → u8 (bit_or word bits) ≡ byte
joined k high low {bits = bits} is_word is_bits fits is_byte small =
    ap (λ w. u8 (bit_or w bits)) is_word
    ∙ ap (λ l. u8 (bit_or (high * 2 ^ k) l)) is_bits
    ∙ ap u8 (bit_or-fields k high low fits)
    ∙ omega arith

-- `HEADER_PIXEL` decodes a pixel.
pub header_pixel_lem : {m : Memory} {a r g b : ℕ} → Codes m a r g b → header_pixel m a ≡ (r, g, b)
header_pixel_lem {m} {a} {r} {g} {b} c =
    let first : code m a ≡ r / 4 = ground (arith, c.first, c.red_small) in
    let second : code m (a + 1) ≡ r % 4 * 16 + g / 16 = ground (arith, c.second, c.green_small) in
    let third : code m (a + 2) ≡ g % 16 * 4 + b / 64 = ground (arith, c.third, c.blue_small) in
    let fourth : code m (a + 3) ≡ b % 64 = ground (arith, c.fourth) in
    let low_bits : bit_and (r % 4 * 16 + g / 16) 0xf ≡ g / 16 =
      bit_and-ones 4 (r % 4 * 16 + g / 16) ∙ omega (arith, c.green_small) in
    let low_pair : bit_and (g % 16 * 4 + b / 64) 0x3 ≡ b / 64 =
      bit_and-ones 2 (g % 16 * 4 + b / 64) ∙ omega (arith, c.blue_small) in
    let red : u8 (bit_or (u32 (r / 4 * 2 ^ 2)) (int_shift (r % 4 * 16 + g / 16) 4)) ≡ r =
      joined 2 (r / 4) (r % 4) (omega (arith, c.red_small)) (ground (arith, c.green_small))
        (omega arith) (omega arith) c.red_small in
    let green : u8 (bit_or (u32 (g / 16 * 2 ^ 4)) (int_shift (g % 16 * 4 + b / 64) 2)) ≡ g =
      joined 4 (g / 16) (g % 16) (omega (arith, c.green_small)) (ground (arith, c.blue_small))
        (omega arith) (omega arith) c.green_small in
    let blue : u8 (bit_or (u32 (b / 64 * 2 ^ 6)) (b % 64)) ≡ b =
      joined 6 (b / 64) (b % 64) (omega (arith, c.blue_small)) refl (omega arith) (omega arith)
        c.blue_small in
    rw (first, second, third, fourth, low_bits, low_pair, red, green, blue) refl
