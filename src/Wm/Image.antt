-- ===== src/Wm/Image.antt =====
-- What the images and letters draw.
use acky.Base.{
  ℕ, zero, suc, ◌+◌, ◌*◌, ◌^◌, ◌%◌, ◌<◌, ◌≤◌, ◌≡◌, refl, arith, true, Bool-cases, List, [], ◌∷◌,
  ◌++◌, inl, inr, not, ◌==◌, ◌||◌,
}
use acky.Wm.{Call, bit_of, draw_row, draw_rows, bmp_height, bmp_width, bmp_row, parse_bmp}

-- Every call of the list has the property.
abbrev pub All {ℓ κ} : {A : Type ℓ} → (A → Type κ) → List A → Type κ
All P [] = Unit
All P (c ∷ cs) = P c × All P cs

All-append {ℓ κ} :
    {A : Type ℓ} (P : A → Type κ) (xs ys : List A) → All P xs → All P ys → All P (xs ++ ys)
All-append P [] ys a b = b
All-append P (x ∷ xs) ys (p, a) b = (p, All-append P xs ys a b)

-- The call draws a set bit of an image of `width` columns and `height` rows, at its place and in its
-- colour.
pub record IsDot (bytes : ℕ → ℕ) (start : ℕ → ℕ) (width height x y r g b : ℕ) (c : Call)
    : Type 0 where
  pub col : ℕ
  pub row : ℕ
  pub column : col < width
  pub line : row < height
  pub set : bit_of bytes (start row) col ≡ true
  pub call : c ≡ Call.pixel ((x + col) % 2 ^ 16) ((y + row) % 2 ^ 16) r g b

module _ (bytes : ℕ → ℕ) (start : ℕ → ℕ) (width height x y r g b : ℕ) where
  draw_row-IsDot :
      (row col left : ℕ)
      → row < height
      → col + left ≤ width
      → All
          (IsDot bytes start width height x y r g b)
          (draw_row bytes (start row) x (y + row) r g b col left)
  draw_row-IsDot row col zero h k = tt
  draw_row-IsDot row col (suc left) h k =
      let rest = draw_row-IsDot row (col + 1) left h (omega (arith, k)) in
      elim (Bool-cases (bit_of bytes (start row) col)) [
        | inl set ↦ rw set (
          record {
            col = col;
            row = row;
            column = omega (arith, k);
            line = h;
            set = set;
            call = refl;
          },
          rest,
        )
        | inr clear ↦ rw clear rest
      ]

  draw_rows-IsDot :
      (row left : ℕ)
      → row + left ≤ height
      → All
          (IsDot bytes start width height x y r g b)
          (draw_rows bytes start width x y r g b row left)
  draw_rows-IsDot row zero h = tt
  draw_rows-IsDot row (suc left) h =
      All-append (IsDot bytes start width height x y r g b)
        (draw_row bytes (start row) x (y + row) r g b 0 width)
        (draw_rows bytes start width x y r g b (row + 1) left)
        (draw_row-IsDot row 0 width (omega (arith, h)) (omega arith))
        (draw_rows-IsDot (row + 1) left (omega (arith, h)))

-- Whatever the bytes of the file are, `parseBMP` draws nothing but set bits of the image, each in the
-- width and the height that the header names, at its place behind the corner and in the colour
-- that was asked for.
pub parse_bmp-IsDot :
    (bytes : ℕ → ℕ) (x y r g b : ℕ)
    → All
        (IsDot bytes (bmp_row bytes) (bmp_width bytes) (bmp_height bytes) x y r g b)
        (parse_bmp bytes x y r g b)
unfolding parse_bmp
parse_bmp-IsDot bytes x y r g b =
    elim (Bool-cases (not (bytes 0 == b'B') || not (bytes 1 == b'M'))) [
      | inl other ↦ rw other tt
      | inr image ↦ elim (Bool-cases (not (bytes 28 + bytes 29 * 2 ^ 8 == 1))) [
        | inl colours ↦ rw (image, colours) tt
        | inr mono ↦
            rw (image, mono)
              (draw_rows-IsDot bytes (bmp_row bytes) (bmp_width bytes) (bmp_height bytes) x y r g b
                0 (bmp_height bytes) (omega arith))
      ]
    ]
