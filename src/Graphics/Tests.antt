-- ===== src/Graphics/Tests.antt =====
-- Tests of the pixels, and their theorem in a concrete mode.
use acky.Base.{ℕ, ◌+◌, ◌<◌, inl, ◌≡◌, refl, arith, some}
use acky.Base.Int.{pos}
use acky.Ram.{Ram}
use acky.Graphics.{VbeReturn, pixel_at, put_pixel, get_pixel, line_to, draw_line}
use acky.Graphics.Pixels.{IsMode, get_pixel-put_pixel}
use acky.Graphics.Steps.{distance}
use acky.Graphics.Bresenham.{Drawn, OnLine, draw_line_lem}

-- 1024 by 768 pixels of 24 bits.
abbrev mode : VbeReturn
mode = record { pitch = 3072; bpp = 24; framebuffer = 0xFD000000 }

mode-IsMode : IsMode mode 1024 768
mode-IsMode = record {
  depth = omega arith;
  rows = omega arith;
  bounded = omega arith;
  narrow = omega arith;
  low = omega arith;
}

abbrev black : Ram
black a = 0

second_row : pixel_at mode 1 1 ≡ 0xFD000C03
unfolding pixel_at
second_row = refl

get_pixel-put_pixel_example :
    (get_pixel mode (put_pixel mode black 5 7 255 128 1) 5 7
      ≡ record { r = 255; g = 128; b = 1; x = 5; y = 7 })
    × (get_pixel mode (put_pixel mode black 5 7 255 128 1) 6 7 ≡ get_pixel mode black 6 7)
get_pixel-put_pixel_example =
    get_pixel-put_pixel mode black 1024 768 5 7 6 7 255 128 1 mode-IsMode (omega arith)
      (omega arith) (omega arith) (omega arith) (inl (omega arith))

short : distance 5 12 + distance 9 6 < 11
short = omega arith

draw_line_lem_example :
    (let l = line_to (pos 5) (pos 9) (pos 12) (pos 6) 255 128 1 in
      (m' : Ram) × (draw_line 11 mode black (pos 5) (pos 9) (pos 12) (pos 6) 255 128 1 ≡ some m')
      × Drawn mode l m' 5 9
      × Drawn mode l m' 12 6
      × ((x y : ℕ)
          → x < 1024
          → y < 768
          → ¬ (OnLine l 5 9 12 6 (distance 5 12) (distance 9 6) x y)
          → get_pixel mode m' x y ≡ get_pixel mode black x y))
draw_line_lem_example =
    draw_line_lem mode black 1024 768 5 9 12 6 255 128 1 11 mode-IsMode (omega arith) (omega arith)
      (omega arith) (omega arith) short
