-- ===== src/Framebuffer/Fill.antt =====
-- What the loops of src/drivers/framebuffer/framebuffer.c reach, and where a pixel is drawn.
use native.Mathlib.Nat.{mul-le-mul_right}
use potatos.Base.{
  ◌==◌, ◌<◌, ℕ, zero, suc, ◌+◌, ◌*◌, ◌/◌, ◌≤◌, ◌^◌, ◌≡◌, ◌≢◌, refl, ◌∙◌, true, Bool-cases, inl, inr,
  some, if◌then◌else◌, ltb, leb, ◌&&◌, arith, u32,
}
use potatos.Framebuffer.{
  plot_pixel, Pixels, Framebuffer, color, put_four, fill_loop, clear_framebuffer, flip_framebuffer,
}

-- The pixels that the loop writes: up to the next multiple of four.
abbrev pub reach : ℕ → ℕ
reach size = (size + 3) / 4 * 4

fill_step :
    (fuel i size : ℕ) (source pixels : Pixels) {j : ℕ}
    → ltb i size ≡ true
    → u32 (i + 4) ≡ j
    → fill_loop (suc fuel) i size source pixels
      ≡ fill_loop fuel j size source (put_four source i pixels)
unfolding fill_loop
fill_step fuel i size source pixels more next = rw (more, next) refl

fill_loop_lem :
    (fuel k size : ℕ) (source pixels : Pixels)
    → size + 4 ≤ k * 4 + fuel * 4
    → k * 4 ≤ reach size
    → size + 4 ≤ 2 ^ 32
    → (out : Pixels) × (fill_loop fuel (k * 4) size source pixels ≡ some out)
      × ((x : ℕ) → out x ≡ (if leb (k * 4) x && ltb x (reach size) then source x else pixels x))
unfolding fill_loop
fill_loop_lem zero k size source pixels enough low small = absurd (omega arith)
fill_loop_lem (suc fuel) k size source pixels enough low small =
    elim (Bool-cases (ltb (k * 4) size)) [
      | inl more ↦
          let next : u32 (k * 4 + 4) ≡ suc k * 4 = ground arith in
          let (out, run, all) =
            fill_loop_lem fuel (suc k) size source (put_four source (k * 4) pixels) (omega arith)
              (ground arith) small in
          (
            out,
            fill_step fuel (k * 4) size source pixels more next ∙ run,
            λ x. ground (arith, all x),
          )
      | inr done ↦ (pixels, rw done refl, λ x. ground arith)
    ]

clear_step :
    (fuel r g b size : ℕ) (s : Framebuffer) {out : Pixels}
    → u32 (s.width * s.height) ≡ size
    → fill_loop fuel 0 size (λ i. color r g b) s.buffer ≡ some out
    → clear_framebuffer fuel r g b s ≡ some (record s { buffer = out })
unfolding clear_framebuffer
clear_step fuel r g b size s fits run = rw (clear_framebuffer, fits, run) refl

flip_step :
    (fuel size : ℕ) (s : Framebuffer) {out : Pixels}
    → u32 (s.width * s.height) ≡ size
    → fill_loop fuel 0 size s.buffer s.screen ≡ some out
    → flip_framebuffer fuel s ≡ some (record s { screen = out })
unfolding flip_framebuffer
flip_step fuel size s fits run = rw (flip_framebuffer, fits, run) refl

-- `clear_framebuffer` returns, with a round for every four pixels and one more, on a screen of at
-- most 2 ^ 32 - 4 pixels: every pixel up to the next multiple of four has the color, the others and
-- the screen are as before.
pub clear_framebuffer_lem :
    (fuel r g b : ℕ) (s : Framebuffer)
    → s.width * s.height + 4 ≤ fuel * 4
    → s.width * s.height + 4 ≤ 2 ^ 32
    → (s' : Framebuffer) × (clear_framebuffer fuel r g b s ≡ some s')
      × (s'.screen ≡ s.screen)
      × ((x : ℕ)
          → s'.buffer x ≡ (if ltb x (reach (s.width * s.height)) then color r g b else s.buffer x))
clear_framebuffer_lem fuel r g b s enough small =
    let size : u32 (s.width * s.height) ≡ s.width * s.height = omega arith in
    let (out, run, all) =
      fill_loop_lem fuel 0 (s.width * s.height) (λ i. color r g b) s.buffer (omega arith)
        (omega arith) small in
    (
      record s { buffer = out },
      clear_step fuel r g b (s.width * s.height) s size run,
      refl,
      λ x. ground (arith, all x),
    )

-- `flip_framebuffer` returns, with a round for every four pixels and one more, on a screen of at
-- most 2 ^ 32 - 4 pixels: the screen shows every pixel of the buffer up to the next multiple of four,
-- and the buffer is as before.
pub flip_framebuffer_lem :
    (fuel : ℕ) (s : Framebuffer)
    → s.width * s.height + 4 ≤ fuel * 4
    → s.width * s.height + 4 ≤ 2 ^ 32
    → (s' : Framebuffer) × (flip_framebuffer fuel s ≡ some s')
      × (s'.buffer ≡ s.buffer)
      × ((x : ℕ)
          → s'.screen x ≡ (if ltb x (reach (s.width * s.height)) then s.buffer x else s.screen x))
flip_framebuffer_lem fuel s enough small =
    let size : u32 (s.width * s.height) ≡ s.width * s.height = omega arith in
    let (out, run, all) =
      fill_loop_lem fuel 0 (s.width * s.height) s.buffer s.screen (omega arith) (omega arith)
        small in
    (
      record s { screen = out },
      flip_step fuel (s.width * s.height) s size run,
      refl,
      λ x. ground (arith, all x),
    )

-- Two pixels of a row's width at the same index are the same.
row_above : (w y z x x' : ℕ) → x < w → y < z → y * w + x ≢ z * w + x'
row_above w y z x x' small above e =
    let le = mul-le-mul_right w above in
    let one : suc y * w ≡ y * w + w = omega arith in omega (arith, e, le, one)

-- A row starts in front of the end of the screen.
row_inside : (w h y x : ℕ) → x < w → y < h → y * w + x < w * h
row_inside w h y x small low =
    let le = mul-le-mul_right w low in
    let one : suc y * w ≡ y * w + w = omega arith in
    let turn : h * w ≡ w * h = omega arith in omega (arith, le, one, turn)

-- `plot_pixel` inside a screen of less than 2 ^ 32 pixels gives the pixel its color and changes no
-- other pixel of the screen.
pub plot_pixel_lem :
    (x y r g b x' y' : ℕ) (s : Framebuffer)
    → s.width * s.height < 2 ^ 32
    → x < s.width
    → y < s.height
    → x' < s.width
    → (plot_pixel x y r g b s).buffer (y' * s.width + x')
      ≡ (if (x == x') && (y == y') then color r g b else s.buffer (y' * s.width + x'))
unfolding plot_pixel
plot_pixel_lem x y r g b x' y' s bound hx hy hx' =
    let inside = row_inside s.width s.height y x hx hy in
    let place : u32 (x + u32 (y * s.width)) ≡ y * s.width + x = omega (arith, inside) in
    rw place (ground (arith, row_above s.width y y' x x' hx, row_above s.width y' y x' x hx'))
