-- ===== src/Graphics/Bresenham.antt =====
-- The lines of `drawLine`: the loop ends, and draws the pixels next to the straight line.
use acky.Base.{
  ℕ, zero, suc, ◌+◌, ◌-◌, ◌≤◌, ◌<◌, ◌≡◌, ◌≢◌, ◌⊎◌, inl, inr, refl, sym, ◌∙◌, arith, Bool, true,
  false, ◌&&◌, Bool-cases, some,
}
use acky.Base.Int.{pos, sub_ℕ, ◌+ℤ◌, ◌-ℤ◌, eq_ℤ, to_word}
use acky.Ram.{Ram}
use acky.Graphics.{VbeReturn, Line, put_pixel, get_pixel, abs, draw_from, line_to, draw_line}
use acky.Graphics.Pixels.{IsMode, get_pixel-drawn, get_pixel-other}
use acky.Graphics.Steps.{
  Along, Along-last, along_test, across_test, along_test-lt, across_test-lt, Near, count, Near-next,
  moves, Along-turn, err_at, err_at-turn, err_at-start, tests, draw_from-turn, distance,
  Along-within, count-le, Along-start, Near-start, fewer,
}

pub Drawn : VbeReturn → Line → Ram → (x y : ℕ) → Type 0
Drawn vbe l m x y = get_pixel vbe m x y ≡ record { r = l.r; g = l.g; b = l.b; x = x; y = y }

-- The pixels next to the straight line from (x0, y0) to (x1, y1), in the directions of the line, `a`
-- along and `b` across.
pub record OnLine (l : Line) (x0 y0 x1 y1 a b x y : ℕ) : Type 0 where
  pub i : ℕ
  pub j : ℕ
  pub along : Along l.sx x0 x1 a i x
  pub across : Along l.sy y0 y1 b j y
  pub inside : (i ≤ a) × (j ≤ b)
  pub near : Near a b i j

pub record Painted (vbe : VbeReturn) (l : Line) (width height x0 y0 x1 y1 a b : ℕ) (m m' : Ram)
    : Type 0 where
  pub at_end : Drawn vbe l m' x1 y1
  pub kept : (x y : ℕ) → x < width → y < height → Drawn vbe l m x y → Drawn vbe l m' x y
  pub outside :
      (x y : ℕ)
      → x < width
      → y < height
      → ¬ (OnLine l x0 y0 x1 y1 a b x y)
      → get_pixel vbe m' x y ≡ get_pixel vbe m x y

-- What one pixel of the line does to the screen.
put_pixel-Drawn :
    (vbe : VbeReturn) (l : Line) (width height x y : ℕ) (m : Ram)
    → IsMode vbe width height
    → x < width
    → y < height
    → (let drawn = put_pixel vbe m (to_word (pos x)) (to_word (pos y)) l.r l.g l.b in
        Drawn vbe l drawn x y
        × ((x' y' : ℕ)
            → x' < width
            → y' < height
            → (x ≢ x') ⊎ (y ≢ y')
            → get_pixel vbe drawn x' y' ≡ get_pixel vbe m x' y'))
unfolding Drawn
put_pixel-Drawn vbe l width height x y m mode hx hy =
    let px : to_word (pos x) ≡ x = omega (arith, mode.narrow) in
    let py : to_word (pos y) ≡ y = omega (arith, mode.low) in
    rw (px, py)
      (
        get_pixel-drawn vbe m width height x y l.r l.g l.b mode hx hy,
        λ x' y' hx' hy' other.
            get_pixel-other vbe m width height x y x' y' l.r l.g l.b mode hx hy hx' hy' other,
      )

same_point : (x y x' y' : ℕ) → ((x ≡ x') × (y ≡ y')) ⊎ ((x ≢ x') ⊎ (y ≢ y'))
same_point x y x' y' = ground arith

pub record IsLine (l : Line) (x1 y1 a b : ℕ) : Type 0 where
  pub to_x : l.x1 ≡ pos x1
  pub to_y : l.y1 ≡ pos y1
  pub long : l.dx ≡ sub_ℕ a 0
  pub high : l.dy ≡ sub_ℕ 0 b

open_end :
    (p q : Bool) (i a j b : ℕ)
    → i ≤ a
    → j ≤ b
    → (i ≡ a → p ≡ true)
    → (j ≡ b → q ≡ true)
    → p && q ≡ false
    → (i < a) ⊎ (j < b)
open_end p q i a j b hi hj hp hq e = ground arith

eq_ℤ-pos : (x y : ℕ) → eq_ℤ (pos x) (pos y) ≡ true → x ≡ y
eq_ℤ-pos x y e = ground arith

both : (p q : Bool) → p && q ≡ true → (p ≡ true) × (q ≡ true)
both true true e = (refl, refl)
both true false e = absurd (ground arith)
both false q e = absurd (ground arith)

module _ (vbe : VbeReturn) (l : Line) (width height x0 y0 x1 y1 a b : ℕ)
    (mode : IsMode vbe width height) (line : IsLine l x1 y1 a b) (hx0 : x0 < width)
    (hx1 : x1 < width) (hy0 : y0 < height) (hy1 : y1 < height) where
  -- One pixel of the line, in front of what is drawn after it.
  Painted-after :
      (x y : ℕ) (m m' : Ram)
      → x < width
      → y < height
      → OnLine l x0 y0 x1 y1 a b x y
      → Painted vbe l width height x0 y0 x1 y1 a b
          (put_pixel vbe m (to_word (pos x)) (to_word (pos y)) l.r l.g l.b)
          m'
      → Painted vbe l width height x0 y0 x1 y1 a b m m' × Drawn vbe l m' x y
  unfolding Drawn
  Painted-after x y m m' hx hy on rest =
      let (here, there) = put_pixel-Drawn vbe l width height x y m mode hx hy in
      (
        record {
          at_end = rest.at_end;
          kept = λ x' y' hx' hy' old. rest.kept x' y' hx' hy' (elim (same_point x y x' y') [
            | inl (ex, ey) ↦ rw (sym ex, sym ey) here
            | inr other ↦ there x' y' hx' hy' other ∙ old
          ]);
          outside = λ x' y' hx' hy' off.
              rest.outside x' y' hx' hy' off ∙ (elim (same_point x y x' y') [
                | inl (ex, ey) ↦ absurd (off (rw (sym ex, sym ey) on))
                | inr other ↦ there x' y' hx' hy' other
              ]);
        },
        rest.kept x y hx hy here,
      )

  Painted-last :
      (x y : ℕ) (m : Ram)
      → x < width
      → y < height
      → x ≡ x1
      → y ≡ y1
      → OnLine l x0 y0 x1 y1 a b x y
      → (let drawn = put_pixel vbe m (to_word (pos x)) (to_word (pos y)) l.r l.g l.b in
          Painted vbe l width height x0 y0 x1 y1 a b m drawn × Drawn vbe l drawn x y)
  Painted-last x y m hx hy ex ey on =
      let drawn = put_pixel vbe m (to_word (pos x)) (to_word (pos y)) l.r l.g l.b in
      let (here, there) = put_pixel-Drawn vbe l width height x y m mode hx hy in
      Painted-after x y m drawn hx hy on (record {
        at_end = rw (sym ex, sym ey) here;
        kept = λ x' y' hx' hy' old. old;
        outside = λ x' y' hx' hy' off. refl;
      })

  -- The loop from a point of the line on.
  draw_from_lem :
      (fuel x y : ℕ) (m : Ram) (on : OnLine l x0 y0 x1 y1 a b x y)
      → (a - on.i) + (b - on.j) < fuel
      → (m' : Ram) × (draw_from fuel vbe l (pos x) (pos y) (err_at a b on.i on.j) m ≡ some m')
        × Painted vbe l width height x0 y0 x1 y1 a b m m'
        × Drawn vbe l m' x y
  draw_from_lem zero x y m on enough = absurd (omega arith)
  draw_from_lem (suc fuel) x y m on enough =
      let i = on.i in
      let j = on.j in
      let hi : i ≤ a = on.inside.0 in
      let hj : j ≤ b = on.inside.1 in
      let hx = Along-within l.sx x0 x1 a i x width on.along hi hx0 hx1 in
      let hy = Along-within l.sy y0 y1 b j y height on.across hj hy0 hy1 in
      let al = along_test a b i j in
      let ac = across_test a b i j in
      let err' = err_at a b (i + count al) (j + count ac) in
      let (tl, tc) = tests a b i j l.dx l.dy line.long line.high in
      let et = err_at-turn a b i j al ac l.dx l.dy line.long line.high in
      let drawn = put_pixel vbe m (to_word (pos x)) (to_word (pos y)) l.r l.g l.b in
      let at_x = eq_ℤ (pos x) (pos x1) in
      let at_y = eq_ℤ (pos y) (pos y1) in
      let (lx, ex) = Along-last l.sx x0 x1 a i x on.along hi in
      let (ly, ey) = Along-last l.sy y0 y1 b j y on.across hj in
      elim (Bool-cases (at_x && at_y)) [
        | inl last ↦
            let (px, py) = both at_x at_y last in
            let (painted, here) =
              Painted-last x y m hx hy (eq_ℤ-pos x x1 px) (eq_ℤ-pos y y1 py) on in
            let turn =
              draw_from-turn fuel vbe l (pos x) (pos y) (err_at a b i j) m al ac _ _ err' tl tc refl
                refl et in
            (drawn, turn ∙ (simp (line.to_x, line.to_y, last)), painted, here)
        | inr more ↦
            let ahead = open_end at_x at_y i a j b hi hj ex ey more in
            let less_x = along_test-lt a b i j hi hj ahead in
            let less_y = across_test-lt a b i j hi hj ahead in
            let (x', step_x, along) = Along-turn l.sx x0 x1 a i x al on.along less_x in
            let (y', step_y, across) = Along-turn l.sy y0 y1 b j y ac on.across less_y in
            let hi' = count-le al i a hi less_x in
            let hj' = count-le ac j b hj less_y in
            let on' : OnLine l x0 y0 x1 y1 a b x' y' = record {
              i = i + count al;
              j = j + count ac;
              along = along;
              across = across;
              inside = (hi', hj');
              near = Near-next a b i j on.near;
            } in
            let enough' = fewer i j a b (count al) (count ac) fuel hi' hj' (moves a b i j) enough in
            let (m', run, painted, here) = draw_from_lem fuel x' y' drawn on' enough' in
            let (painted', here') = Painted-after x y m m' hx hy on painted in
            let turn =
              draw_from-turn fuel vbe l (pos x) (pos y) (err_at a b i j) m al ac (pos x') (pos y')
                err' tl tc step_x step_y et in
            (m', turn ∙ (simp (line.to_x, line.to_y, more)) ∙ run, painted', here')
      ]

abs-distance : (p q : ℕ) → abs (pos q -ℤ pos p) ≡ sub_ℕ (distance p q) 0
unfolding ◌-ℤ◌
abs-distance p q = ground arith

neg-distance : (p q : ℕ) → pos 0 -ℤ abs (pos q -ℤ pos p) ≡ sub_ℕ 0 (distance p q)
unfolding ◌-ℤ◌
neg-distance p q = ground arith

-- On a screen that lies in the memory as a whole, `drawLine` between two of its points ends after at most
-- as many turns as the sides of the line are long together, plus one. Both ends then have the
-- colour, and every pixel of the screen that is not next to the straight line is as it was: what is
-- drawn is off by half a pixel at most, measured along the shorter side.
pub draw_line_lem :
    (vbe : VbeReturn) (m : Ram) (width height x0 y0 x1 y1 r g b fuel : ℕ)
    → IsMode vbe width height
    → x0 < width
    → y0 < height
    → x1 < width
    → y1 < height
    → distance x0 x1 + distance y0 y1 < fuel
    → (let l = line_to (pos x0) (pos y0) (pos x1) (pos y1) r g b in
        (m' : Ram) × (draw_line fuel vbe m (pos x0) (pos y0) (pos x1) (pos y1) r g b ≡ some m')
        × Drawn vbe l m' x0 y0
        × Drawn vbe l m' x1 y1
        × ((x y : ℕ)
            → x < width
            → y < height
            → ¬ (OnLine l x0 y0 x1 y1 (distance x0 x1) (distance y0 y1) x y)
            → get_pixel vbe m' x y ≡ get_pixel vbe m x y))
unfolding draw_line
draw_line_lem vbe m width height x0 y0 x1 y1 r g b fuel mode hx0 hy0 hx1 hy1 enough =
    let l = line_to (pos x0) (pos y0) (pos x1) (pos y1) r g b in
    let dx = distance x0 x1 in
    let dy = distance y0 y1 in
    let line : IsLine l x1 y1 dx dy = record {
      to_x = refl;
      to_y = refl;
      long = abs-distance x0 x1;
      high = neg-distance y0 y1;
    } in
    let on : OnLine l x0 y0 x1 y1 dx dy x0 y0 = record {
      i = 0;
      j = 0;
      along = Along-start x0 x1;
      across = Along-start y0 y1;
      inside = (omega arith, omega arith);
      near = Near-start dx dy;
    } in
    let err : l.dx +ℤ l.dy ≡ err_at dx dy 0 0 = err_at-start dx dy l.dx l.dy line.long line.high in
    let (m', run, painted, here) =
      draw_from_lem vbe l width height x0 y0 x1 y1 dx dy mode line hx0 hx1 hy0 hy1 fuel x0 y0 m on
        (omega (arith, enough)) in
    (m', rw err run, here, painted.at_end, painted.outside)
