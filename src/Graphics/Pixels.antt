-- ===== src/Graphics/Pixels.antt =====
-- Pixels of a screen that lies in memory as a whole.
use acky.Base.{
  ℕ, suc, zero, ◌+◌, ◌*◌, ◌/◌, ◌%◌, ◌^◌, ◌<◌, ◌≤◌, ◌≡◌, ◌≢◌, ◌⊎◌, refl, u32, arith, update, inl,
  inr, ap, add32,
}
use acky.Ram.{Ram}
use acky.Graphics.{VbeReturn, PixelInfo, pixel_at, put_pixel, get_pixel}

-- A mode with at least 24 bits for a pixel, whose rows hold `width` pixels and whose `height` rows
-- lie in the address space.
pub record IsMode (vbe : VbeReturn) (width height : ℕ) : Type 0 where
  pub depth : 3 ≤ vbe.bpp / 8
  pub rows : width * (vbe.bpp / 8) ≤ vbe.pitch
  pub bounded : vbe.framebuffer + height * vbe.pitch < u32
  pub narrow : width ≤ 2 ^ 16
  pub low : height ≤ 2 ^ 16

le-cases : (a b : ℕ) → a < suc b → (a < b) ⊎ (a ≡ b)
le-cases a b h = omega arith

suc-mul : (b k : ℕ) → suc b * k ≡ b * k + k
suc-mul b k = omega arith

scaled : (a b k : ℕ) → a < b → a * k + k ≤ b * k
scaled a zero k h = absurd (omega arith)
scaled a (suc b) k h = elim (le-cases a b h) [
  | inl less ↦ omega (arith, scaled a b k less, suc-mul b k)
  | inr same ↦ rw (same, suc-mul b k) (omega arith)
]

offset_lem :
    (vbe : VbeReturn) (width height x y : ℕ)
    → IsMode vbe width height
    → x < width
    → y < height
    → pixel_at vbe x y ≡ vbe.framebuffer + (y * vbe.pitch + x * (vbe.bpp / 8))
unfolding pixel_at
offset_lem vbe width height x y mode hx hy =
    let k = vbe.bpp / 8 in
    let row = scaled y height vbe.pitch hy in
    let column = scaled x width k hx in ground (arith, mode.rows, mode.bounded, mode.depth)

-- A pixel that comes before another one, row by row, ends in front of it.
before :
    (vbe : VbeReturn) (width height x y x' y' : ℕ)
    → IsMode vbe width height
    → x < width
    → x' < width
    → y' < height
    → ((y < y') ⊎ ((y ≡ y') × (x < x')))
    → pixel_at vbe x y + 3 ≤ pixel_at vbe x' y'
before vbe width height x y x' y' mode hx hx' hy' (inl above) =
    let k = vbe.bpp / 8 in
    let here = offset_lem vbe width height x y mode hx (omega (arith, above, hy')) in
    let there = offset_lem vbe width height x' y' mode hx' hy' in
    let row = scaled y y' vbe.pitch above in
    let column = scaled x width k hx in
    omega (arith, here, there, row, column, mode.rows, mode.depth)
before vbe width height x y x' y' mode hx hx' hy' (inr (level, left)) =
    let k = vbe.bpp / 8 in
    let here = offset_lem vbe width height x y mode hx (omega (arith, level, hy')) in
    let there = offset_lem vbe width height x' y' mode hx' hy' in
    let column = scaled x x' k left in
    let row : y * vbe.pitch ≡ y' * vbe.pitch = ap (λ (n : ℕ). n * vbe.pitch) level in
    omega (arith, here, there, row, column, mode.depth)

order :
    (x y x' y' : ℕ)
    → ((x ≢ x') ⊎ (y ≢ y'))
    → ((y < y') ⊎ ((y ≡ y') × (x < x'))) ⊎ ((y' < y) ⊎ ((y' ≡ y) × (x' < x)))
order x y x' y' other = ground arith

pixel-lt :
    (vbe : VbeReturn) (width height x y : ℕ)
    → IsMode vbe width height
    → x < width
    → y < height
    → pixel_at vbe x y + 3 < u32
pixel-lt vbe width height x y mode hx hy =
    let row = scaled y height vbe.pitch hy in
    let column = scaled x width (vbe.bpp / 8) hx in
    omega (
      arith,
      offset_lem vbe width height x y mode hx hy,
      row,
      column,
      mode.rows,
      mode.depth,
      mode.bounded,
    )

-- The memory after the three stores.
abbrev stored : Ram → ℕ → ℕ → ℕ → ℕ → Ram
stored m p r g b = update (update (update m (add32 p 2) b) (add32 p 1) g) p r

stored-here :
    (m : Ram) (p r g b : ℕ)
    → p + 3 < u32
    → (stored m p r g b p ≡ r)
      × (stored m p r g b (add32 p 1) ≡ g)
      × (stored m p r g b (add32 p 2) ≡ b)
stored-here m p r g b h = (ground arith, ground arith, ground arith)

stored-there :
    (m : Ram) (p q r g b : ℕ)
    → p + 3 < u32
    → q + 3 < u32
    → ((p + 3 ≤ q) ⊎ (q + 3 ≤ p))
    → (stored m p r g b q ≡ m q)
      × (stored m p r g b (add32 q 1) ≡ m (add32 q 1))
      × (stored m p r g b (add32 q 2) ≡ m (add32 q 2))
stored-there m p q r g b h k away = (ground arith, ground arith, ground arith)

same_info :
    (r g b x y r' g' b' x' y' : ℕ)
    → r ≡ r'
    → g ≡ g'
    → b ≡ b'
    → x ≡ x'
    → y ≡ y'
    → Path PixelInfo
        (record { r = r; g = g; b = b; x = x; y = y })
        (record { r = r'; g = g'; b = b'; x = x'; y = y' })
same_info r g b x y r' g' b' x' y' er eg eb ex ey = rw (er, eg, eb, ex, ey) refl

pub get_pixel-drawn :
    (vbe : VbeReturn) (m : Ram) (width height x y r g b : ℕ)
    → IsMode vbe width height
    → x < width
    → y < height
    → get_pixel vbe (put_pixel vbe m x y r g b) x y ≡ record { r = r; g = g; b = b; x = x; y = y }
unfolding get_pixel put_pixel
get_pixel-drawn vbe m width height x y r g b mode hx hy =
    let p = pixel_at vbe x y in
    let low = λ (n : ℕ). n % 2 ^ 16 in
    let px : low x ≡ x = omega (arith, mode.narrow) in
    let py : low y ≡ y = omega (arith, mode.low) in
    let drawn = stored m p r g b in
    let (hr, hg, hb) = stored-here m p r g b (pixel-lt vbe width height x y mode hx hy) in
    same_info (drawn p) (drawn (add32 p 1)) (drawn (add32 p 2)) (low x) (low y) r g b x y hr hg hb
      px py

pub get_pixel-other :
    (vbe : VbeReturn) (m : Ram) (width height x y x' y' r g b : ℕ)
    → IsMode vbe width height
    → x < width
    → y < height
    → x' < width
    → y' < height
    → ((x ≢ x') ⊎ (y ≢ y'))
    → get_pixel vbe (put_pixel vbe m x y r g b) x' y' ≡ get_pixel vbe m x' y'
unfolding get_pixel put_pixel
get_pixel-other vbe m width height x y x' y' r g b mode hx hy hx' hy' other =
    let p = pixel_at vbe x y in
    let p' = pixel_at vbe x' y' in
    let end = pixel-lt vbe width height x y mode hx hy in
    let end' = pixel-lt vbe width height x' y' mode hx' hy' in
    let low = λ (n : ℕ). n % 2 ^ 16 in
    let drawn = stored m p r g b in
    let away : (p + 3 ≤ p') ⊎ (p' + 3 ≤ p) = elim (order x y x' y' other) [
      | inl first ↦ inl (before vbe width height x y x' y' mode hx hx' hy' first)
      | inr last ↦ inr (before vbe width height x' y' x y mode hx' hx hy last)
    ] in
    let (or, og, ob) = stored-there m p p' r g b end end' away in
    same_info (drawn p') (drawn (add32 p' 1)) (drawn (add32 p' 2)) (low x') (low y') (m p')
      (m (add32 p' 1)) (m (add32 p' 2)) (low x') (low y') or og ob refl refl

-- In such a mode, a pixel of the screen is read back as it was drawn, and any other pixel of the screen
-- as it was before.
pub get_pixel-put_pixel :
    (vbe : VbeReturn) (m : Ram) (width height x y x' y' r g b : ℕ)
    → IsMode vbe width height
    → x < width
    → y < height
    → x' < width
    → y' < height
    → ((x ≢ x') ⊎ (y ≢ y'))
    → (get_pixel vbe (put_pixel vbe m x y r g b) x y ≡ record { r = r; g = g; b = b; x = x; y = y })
      × (get_pixel vbe (put_pixel vbe m x y r g b) x' y' ≡ get_pixel vbe m x' y')
get_pixel-put_pixel vbe m width height x y x' y' r g b mode hx hy hx' hy' other = (
  get_pixel-drawn vbe m width height x y r g b mode hx hy,
  get_pixel-other vbe m width height x y x' y' r g b mode hx hy hx' hy' other,
)
