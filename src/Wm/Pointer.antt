-- ===== src/Wm/Pointer.antt =====
-- The reaction to a movement of the mouse. The 12 by 19 pixels below the pointer are put back and
-- saved by loops over the rows; what the kernel answers to the reading of a pixel is an argument.
use acky.Base.{
  ℕ, zero, suc, ◌+◌, ◌-◌, ◌*◌, ◌/◌, ◌%◌, ◌^◌, ◌≤◌, ◌≡◌, ◌≢◌, refl, ap, sym, if◌then◌else◌, ◌==◌,
  leb, update, none, some, ◌&&◌, List, [], ◌∷◌, ◌++◌, arith, Bool-cases, inl, inr, Option-cases,
}
use acky.Base.Int.{ℤ, pos, negsuc, ◌+ℤ◌, ◌-ℤ◌, ltb_ℤ, to_word, signed8}
use acky.Wm.{Call, Window, Wm, check_window_hover, draw_window, parse_bmp}

-- The colours of `mouseBG`.
pub record Colour : Type 0 where
  pub r : ℕ
  pub g : ℕ
  pub b : ℕ

abbrev pub put_row : (ℕ → Colour) → (x y i j left : ℕ) → List Call
put_row bg x y i j zero = []
put_row bg x y i j (suc left) =
    let c = bg (i * 12 + j) in
    Call.pixel ((x + j) % 2 ^ 16) ((y + i) % 2 ^ 16) c.r c.g c.b ∷ put_row bg x y i (j + 1) left

abbrev pub put_background : (ℕ → Colour) → (x y i left : ℕ) → List Call
put_background bg x y i zero = []
put_background bg x y i (suc left) = put_row bg x y i 0 12 ++ put_background bg x y (i + 1) left

abbrev pub read_row : (x y i j left : ℕ) → List Call
read_row x y i j zero = []
read_row x y i j (suc left) =
    Call.get_pixel ((x + j) % 2 ^ 16) ((y + i) % 2 ^ 16) ∷ read_row x y i (j + 1) left

abbrev pub read_background : (x y i left : ℕ) → List Call
read_background x y i zero = []
read_background x y i (suc left) = read_row x y i 0 12 ++ read_background x y (i + 1) left

-- The power button, 15 by 20 pixels from (3, 3).
abbrev pub check_power : Wm → List Call
check_power s =
    let x = to_word s.mouse_x in
    let y = to_word s.mouse_y in
    if leb 3 x && leb x (3 + 15) && leb 3 y && leb y (3 + 20) then Call.shut_down ∷ [] else []

-- `windows[hover].x += mouseMsg->x; windows[hover].y -= mouseMsg->y;` on 16 bits, for signed bytes.
abbrev pub move_window : Window → (dx dy : ℕ) → Window
move_window w dx dy = record w {
  x = (w.x + to_word (signed8 dx)) % 2 ^ 16;
  y = (w.y + to_word (pos 0 -ℤ signed8 dy)) % 2 ^ 16;
}

-- The left button: the power button, and the window whose title bar is below the pointer.
unfoldable pub press_left : (font : ℕ → ℕ) → (dx dy : ℕ) → Wm → Wm × List Call
press_left font dx dy s =
    elim (check_window_hover s (to_word s.mouse_x % 2 ^ 16) (to_word s.mouse_y % 2 ^ 16)) [
      | none ↦ (s, check_power s)
      | some hover ↦
          let w = move_window (s.windows hover) dx dy in
          let s' = record s { windows = update s.windows hover w } in
          let told =
            if w.process_pid == 0 then [] else Call.window_moved w.process_pid dx dy ∷ [] in
          (s', check_power s ++ (draw_window font s' hover ++ told))
    ]

-- `if(v < 0) v = 0; if(v > limit) v = limit;`
unfoldable pub clamp : ℤ → (limit : ℕ) → ℤ
clamp v limit =
    let low = if ltb_ℤ v (pos 0) then pos 0 else v in
    if ltb_ℤ (pos limit) low then pos limit else low

unfoldable pub move_mouse : (dx dy : ℕ) → Wm → Wm
unfolding clamp
move_mouse dx dy s = record s {
  mouse_x = clamp (s.mouse_x +ℤ signed8 dx) (1024 - 1);
  mouse_y = clamp (s.mouse_y -ℤ signed8 dy) (768 - 1);
}

-- The message with the signature MOUMOV; `bg` holds the colours below the pointer.
unfoldable pub mouse_moved :
    (font pointer : ℕ → ℕ) → (bg : ℕ → Colour) → (dx dy status : ℕ) → Wm → Wm × List Call
unfolding press_left move_mouse
mouse_moved font pointer bg dx dy status s =
    let restored = put_background bg (to_word s.mouse_x) (to_word s.mouse_y) 0 19 in
    let left = status % 2 == 1 in
    let (s₁, pressed) = if left then press_left font dx dy s else (s, []) in
    let s₂ = move_mouse dx dy s₁ in
    let x = to_word s₂.mouse_x in
    let y = to_word s₂.mouse_y in
    let r = if left then 255 else 0 in
    let g = if status / 2 % 2 == 1 then 255 else 0 in
    (s₂, restored ++ (pressed ++ (read_background x y 0 19 ++ parse_bmp pointer x y r g 0)))

-- The pointer is on the screen.
pub record OnScreen (s : Wm) : Type 0 where
  pub x : ℕ
  pub y : ℕ
  pub at_x : s.mouse_x ≡ pos x
  pub at_y : s.mouse_y ≡ pos y
  pub x-le : x ≤ 1023
  pub y-le : y ≤ 767

clamp-bounded : (v : ℤ) (limit : ℕ) → (n : ℕ) × (clamp v limit ≡ pos n) × (n ≤ limit)
unfolding clamp
clamp-bounded (pos v) limit = elim (Bool-cases (leb v limit)) [
  | inl below ↦ (v, ground arith, ground arith)
  | inr above ↦ (limit, ground arith, omega arith)
]
clamp-bounded (negsuc v) limit = (0, ground arith, omega arith)

elsewhere : (ws : ℕ → Window) (w : Window) (i j : ℕ) → (j ≢ i) → update ws i w j ≡ ws j
elsewhere ws w i j ne = ground arith

-- The number of windows stays, and so does every window but the one below the pointer.
Kept : Wm → Wm → Type 0
Kept s s' =
    (s'.window_count ≡ s.window_count)
    × ((j : ℕ)
        → check_window_hover s (to_word s.mouse_x % 2 ^ 16) (to_word s.mouse_y % 2 ^ 16) ≢ some j
        → s'.windows j ≡ s.windows j)

press_left-Kept : (font : ℕ → ℕ) (dx dy : ℕ) (s : Wm) → Kept s (press_left font dx dy s).0
unfolding press_left Kept
press_left-Kept font dx dy s =
    let x = to_word s.mouse_x % 2 ^ 16 in
    let y = to_word s.mouse_y % 2 ^ 16 in
    elim (Option-cases (check_window_hover s x y)) [
      | inl off ↦ rw (press_left, off) (refl, λ j other. refl)
      | inr (hover, on) ↦
          let w = move_window (s.windows hover) dx dy in
          rw (press_left, on)
            (refl, λ j other. elsewhere s.windows w hover j (λ e. other (ap some (sym e))))
    ]

move_mouse-OnScreen : (dx dy : ℕ) (s : Wm) → OnScreen (move_mouse dx dy s)
unfolding move_mouse
move_mouse-OnScreen dx dy s =
    let (x, ex, hx) = clamp-bounded (s.mouse_x +ℤ signed8 dx) 1023 in
    let (y, ey, hy) = clamp-bounded (s.mouse_y -ℤ signed8 dy) 767 in
    record { x = x; y = y; at_x = ex; at_y = ey; x-le = hx; y-le = hy }

-- After any movement, from any place of the pointer and with any buttons pressed, the pointer is on the
-- screen of 1024 by 768 pixels; no window is opened or closed, and every window stays where it is but
-- the one whose title bar the pointer was on.
pub mouse_moved-OnScreen :
    (font pointer : ℕ → ℕ) (bg : ℕ → Colour) (dx dy status : ℕ) (s : Wm)
    → (let s' = (mouse_moved font pointer bg dx dy status s).0 in
        OnScreen s'
        × (s'.window_count ≡ s.window_count)
        × ((j : ℕ)
            → check_window_hover s (to_word s.mouse_x % 2 ^ 16) (to_word s.mouse_y % 2 ^ 16)
              ≢ some j
            → s'.windows j ≡ s.windows j))
unfolding mouse_moved Kept move_mouse
mouse_moved-OnScreen font pointer bg dx dy status s = elim (Bool-cases (status % 2 == 1)) [
  | inl left ↦
      let (count, others) = press_left-Kept font dx dy s in
      rw left (move_mouse-OnScreen dx dy (press_left font dx dy s).0, count, others)
  | inr other ↦ rw other (move_mouse-OnScreen dx dy s, refl, λ j off. refl)
]
