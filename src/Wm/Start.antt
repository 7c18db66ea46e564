-- ===== src/Wm/Start.antt =====
-- The start of the window manager: what `main` of user/apps/wm/wm.c does in front of its loop, and the two shapes
-- of img.c. Whether a file is loaded, and the bytes that are in the buffer behind the call, are arguments; the result of loading the font is not
-- looked at, as in the source.
use acky.Base.{
  ◌≡◌, refl, arith, ℕ, zero, suc, ◌+◌, ◌%◌, ◌^◌, Option, none, some, Bool, true, false,
  if◌then◌else◌, List, [], ◌∷◌, ◌++◌, text,
}
use acky.Base.Int.{pos}
use acky.Wm.{
  Call, Window, pixel, line, square, Wm, wm_create_window, parse_bmp, draw_window,
  get_index_from_pid, index_from,
}
use acky.Wm.Pointer.{read_background, OnScreen}

-- The calls in front of the loop.
pub data Opening : Type 0 where
  get_screen_ownership : Opening
  enable_graphics_mode : Opening
  load_file : List ℕ → Opening
  serial_print : List ℕ → Opening
  draws : List Call → Opening
  spawn_process : List ℕ → Opening

-- What `loadFile` leaves: whether the file is loaded, and the bytes of the buffer.
pub record File : Type 0 where
  pub loaded : Bool
  pub bytes : ℕ → ℕ

-- The state in which the loop starts: no window, and the pointer at (50, 50).
abbrev pub fresh : Wm
fresh = record {
  windows = λ i. record {
    name = [];
    x = 0;
    y = 0;
    width = 0;
    height = 0;
    process_pid = 0;
    title_bar = false;
  };
  window_count = 0;
  mouse_x = pos 50;
  mouse_y = pos 50;
}

-- `drawWindow(wmCreateWindow(...))`.
abbrev pub open_window : (font : ℕ → ℕ) → List ℕ → (x y width height : ℕ) → Wm → Wm × List Call
open_window font name x y width height s =
    let (created, s') = wm_create_window name x y width height true 0 s in
    (s', elim created [ none ↦ [] | some idx ↦ draw_window font s' idx ])

-- What follows the loading of the pointer's image.
unfoldable pub open_windows : (font pointer : ℕ → ℕ) → List Opening × Wm
unfolding wm_create_window draw_window
open_windows font pointer =
    let (s₁, first) = open_window font (text "Test Window") 500 500 400 200 fresh in
    let (s₂, second) = open_window font (text "UwU") 300 200 200 100 s₁ in
    (
      draws first
          ∷ draws second
          ∷ draws (read_background 50 50 0 19 ++ parse_bmp pointer 50 50 0 0 0)
          ∷ spawn_process (text "A:/PROGDAT/LAUNCHER.AEF")
          ∷ [],
      s₂,
    )

-- `main` up to its loop; `none` is the loop behind a file that is not loaded.
unfoldable pub start_wm : (back power font pointer : File) → List Opening × Option Wm
unfolding open_windows parse_bmp
start_wm back power font pointer =
    let begin : List Opening =
      get_screen_ownership
      ∷ enable_graphics_mode
      ∷ draws (square 0 0 1024 768 18 92 182 ∷ square 0 0 1024 25 13 57 110 ∷ [])
      ∷ load_file (text "A:/PROGDAT/WM/BACK.BMP")
      ∷ [] in
    let with_back =
      begin
      ++ (draws (parse_bmp back.bytes 744 680 30 30 30)
          ∷ load_file (text "A:/PROGDAT/WM/POWER.BMP")
          ∷ []) in
    let with_power =
      with_back
      ++ (draws (square 0 0 22 25 189 2 2 ∷ parse_bmp power.bytes 3 3 255 255 255)
          ∷ load_file (text "A:/PROGDAT/WM/FONT.PBF")
          ∷ load_file (text "A:/PROGDAT/WM/MOUSE.BMP")
          ∷ []) in
    let (calls, s) = open_windows font.bytes pointer.bytes in
    if back.loaded
    then if power.loaded
      then if pointer.loaded then (with_power ++ calls, some s) else (
        with_power
            ++ (serial_print (text "An error occurred while loading \"A:/PROGDAT/MOUSE.BMP\"")
                ∷ []),
        none,
      )
      else (
        with_back
            ++ (serial_print (text "An error occurred while loading \"A:/PROGDAT/WM/POWER.BMP\"")
                ∷ []),
        none,
      )
    else (
      begin
          ++ (serial_print (text "An error occurred while loading \"A:/PROGDAT/WM/BACK.BMP\"")
              ∷ []),
      none,
    )

-- One row of a rectangle, from column `j` on, and the rows, from `i` on.
abbrev pub rectangle_row : (x y r g b j left : ℕ) → List Call
rectangle_row x y r g b j zero = []
rectangle_row x y r g b j (suc left) =
    pixel ((x + j) % 2 ^ 16) (y % 2 ^ 16) r g b ∷ rectangle_row x y r g b (j + 1) left

unfoldable pub rectangle_rows : (x y width r g b i left : ℕ) → List Call
rectangle_rows x y width r g b i zero = []
rectangle_rows x y width r g b i (suc left) =
    rectangle_row x (y + i) r g b 0 width ++ rectangle_rows x y width r g b (i + 1) left

-- `drawRectangle` of img.c.
unfoldable pub draw_rectangle : (x y width height r g b : ℕ) → List Call
unfolding rectangle_rows
draw_rectangle x y width height r g b = rectangle_rows x y width r g b 0 height

-- `drawBorder`.
unfoldable pub draw_border : (x y width height r g b : ℕ) → List Call
draw_border x y width height r g b =
    let l = x % 2 ^ 16 in
    let t = y % 2 ^ 16 in
    let e = (x + width) % 2 ^ 16 in
    let d = (y + height) % 2 ^ 16 in
    line l t e t r g b ∷ line l t l d r g b ∷ line e d l d r g b ∷ line e d e t r g b ∷ []

-- A window but for its place.
abbrev pub unplaced : Window → Window
unplaced w = record w { x = 0; y = 0 }

abbrev pub opened : List ℕ → (width height : ℕ) → Window
opened name width height = record {
  name = name;
  x = 0;
  y = 0;
  width = width;
  height = height;
  process_pid = 0;
  title_bar = true;
}

-- When its images are loaded, the window manager enters its loop with the pointer on the screen and two windows
-- that belong to no process.
pub start_wm-OnScreen :
    (back power font pointer : File)
    → back.loaded ≡ true
    → power.loaded ≡ true
    → pointer.loaded ≡ true
    → (s : Wm) × ((start_wm back power font pointer).1 ≡ some s)
      × OnScreen s
      × (s.window_count ≡ 2)
      × (get_index_from_pid s 0 ≡ some 0)
      × (unplaced (s.windows 0) ≡ opened (text "Test Window") 400 200)
      × (unplaced (s.windows 1) ≡ opened (text "UwU") 200 100)
unfolding start_wm open_windows wm_create_window get_index_from_pid index_from
start_wm-OnScreen back power font pointer b p m =
    let s = (open_windows font.bytes pointer.bytes).1 in
    (
      s,
      rw (start_wm, b, p, m) refl,
      record { x = 50; y = 50; at_x = refl; at_y = refl; x-le = omega arith; y-le = omega arith },
      refl,
      refl,
      refl,
      refl,
    )
