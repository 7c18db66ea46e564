-- ===== src/Graphics.antt =====
-- The pixels of the graphics mode of foki/vga.c, over the memory that the frame buffer lies in. A
-- coordinate is a 32-bit pattern; the products and sums of the offset are those of 32 bits.
mod Tests
pub mod Pixels
pub mod Steps
pub mod Bresenham
use acky.Base.{
  ℕ, ◌+◌, ◌/◌, ◌%◌, ◌^◌, if◌then◌else◌, ◌==◌, update, add32, mul32, Option, none, some, ◌&&◌, zero,
  suc,
}
use acky.Base.Int.{ℤ, pos, negsuc, ◌+ℤ◌, ◌-ℤ◌, leb_ℤ, ltb_ℤ, eq_ℤ, to_word}
use acky.Ram.{Ram}

-- The fields of `vbeReturn` that the drawing reads.
pub record VbeReturn : Type 0 where
  pub pitch : ℕ
  pub bpp : ℕ
  pub framebuffer : ℕ

-- `pixelInfo`.
pub record PixelInfo : Type 0 where
  pub r : ℕ
  pub g : ℕ
  pub b : ℕ
  pub x : ℕ
  pub y : ℕ

-- `VBEInfo.framebuffer + offset`.
unfoldable pub pixel_at : VbeReturn → ℕ → ℕ → ℕ
pixel_at vbe x y = add32 vbe.framebuffer (add32 (mul32 y vbe.pitch) (mul32 x (vbe.bpp / 8)))

unfoldable pub put_pixel : VbeReturn → Ram → ℕ → ℕ → ℕ → ℕ → ℕ → Ram
unfolding pixel_at
put_pixel vbe m x y r g b =
    let pixel = pixel_at vbe x y in
    update (update (update m (add32 pixel 2) b) (add32 pixel 1) g) pixel r

unfoldable pub get_pixel : VbeReturn → Ram → ℕ → ℕ → PixelInfo
unfolding pixel_at
get_pixel vbe m x y =
    let pixel = pixel_at vbe x y in
    record {
      r = m pixel;
      g = m (add32 pixel 1);
      b = m (add32 pixel 2);
      x = x % 2 ^ 16;
      y = y % 2 ^ 16;
    }

-- `x < 0 ? -x : x`; the arguments of `drawLine` are 16-bit coordinates, so no `int` overflows.
abbrev pub abs : ℤ → ℤ
abs x = if ltb_ℤ x (pos 0) then pos 0 -ℤ x else x

-- What `drawLine` computes in front of its loop, with its arguments.
pub record Line : Type 0 where
  pub x1 : ℤ
  pub y1 : ℤ
  pub dx : ℤ
  pub dy : ℤ
  pub sx : ℤ
  pub sy : ℤ
  pub r : ℕ
  pub g : ℕ
  pub b : ℕ

-- The loop of `drawLine`, which has no bound in the source; `none` means that it still runs.
unfoldable pub draw_from : ℕ → VbeReturn → Line → (x y err : ℤ) → Ram → Option Ram
draw_from zero vbe l x y err m = none
draw_from (suc fuel) vbe l x y err m =
    let drawn = put_pixel vbe m (to_word x) (to_word y) l.r l.g l.b in
    let e2 = err +ℤ err in
    let along = leb_ℤ l.dy e2 in
    let across = leb_ℤ e2 l.dx in
    let err' = if along then err +ℤ l.dy else err in
    let err'' = if across then err' +ℤ l.dx else err' in
    let rest =
      draw_from fuel vbe l (if along then x +ℤ l.sx else x) (if across then y +ℤ l.sy else y) err''
        drawn in
    if eq_ℤ x l.x1 && eq_ℤ y l.y1 then some drawn else rest

abbrev pub line_to : (x0 y0 x1 y1 : ℤ) → (r g b : ℕ) → Line
line_to x0 y0 x1 y1 r g b = record {
  x1 = x1;
  y1 = y1;
  dx = abs (x1 -ℤ x0);
  dy = pos 0 -ℤ abs (y1 -ℤ y0);
  sx = if ltb_ℤ x0 x1 then pos 1 else negsuc 0;
  sy = if ltb_ℤ y0 y1 then pos 1 else negsuc 0;
  r = r;
  g = g;
  b = b;
}

unfoldable pub draw_line : ℕ → VbeReturn → Ram → (x0 y0 x1 y1 : ℤ) → (r g b : ℕ) → Option Ram
draw_line fuel vbe m x0 y0 x1 y1 r g b =
    let l = line_to x0 y0 x1 y1 r g b in draw_from fuel vbe l x0 y0 (l.dx +ℤ l.dy) m
