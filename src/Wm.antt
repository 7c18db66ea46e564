-- ===== src/Wm.antt =====
-- The window manager, the program user/apps/wm: its windows (window.c), its images and letters (img.c)
-- and its reaction to a message (wm.c). What it asks of the kernel is the list of its calls, in
-- order. A coordinate that goes to the kernel is cut to 16 bits, as in `pixelInfo`. The letters and the
-- pointer are the bytes of the files that it loaded, arguments here.
mod Tests
pub mod Image
pub mod Pointer
pub mod Request
pub mod Start
pub mod Session
use acky.Base.{
  ℕ, zero, suc, ◌+◌, ◌-◌, ◌*◌, ◌/◌, ◌%◌, ◌^◌, if◌then◌else◌, ◌==◌, ltb, leb, update, Option, none,
  some, Bool, true, false, not, ◌&&◌, ◌||◌, List, [], ◌∷◌, ◌++◌,
}
use acky.Base.Int.{ℤ, pos, negsuc, ◌+ℤ◌, ◌-ℤ◌, ltb_ℤ, to_word, signed8}

-- The calls of the user library.
pub data Call : Type 0 where
  pixel : (x y r g b : ℕ) → Call
  line : (x1 y1 x2 y2 r g b : ℕ) → Call
  square : (x y width height r g b : ℕ) → Call
  window_moved : (pid x y : ℕ) → Call
  shut_down : Call
  get_pixel : (x y : ℕ) → Call
  unknown_message : Call

-- `window`.
pub record Window : Type 0 where
  pub name : List ℕ
  pub x : ℕ
  pub y : ℕ
  pub width : ℕ
  pub height : ℕ
  pub process_pid : ℕ
  pub title_bar : Bool

-- `windows`, `windowCount`, `mouseX` and `mouseY`.
pub record Wm : Type 0 where
  pub windows : ℕ → Window
  pub window_count : ℕ
  pub mouse_x : ℤ
  pub mouse_y : ℤ

abbrev pub max_windows_count : ℕ
max_windows_count = 255

unfoldable pub wm_create_window :
    List ℕ → (x y width height : ℕ) → (title_bar : Bool) → (pid : ℕ) → Wm → Option ℕ × Wm
wm_create_window name x y width height title_bar pid s =
    if leb max_windows_count s.window_count then (none, s) else (
      some s.window_count,
      record s {
        windows = update s.windows s.window_count (record {
          name = name;
          x = x;
          y = y;
          width = width;
          height = height;
          process_pid = pid;
          title_bar = title_bar;
        });
        window_count = s.window_count + 1;
      },
    )

-- `y >= windows[i].y - 12` in `int`, so the 12 goes to the other side.
abbrev pub on_title_bar : Window → (x y : ℕ) → Bool
on_title_bar w x y = leb w.x x && leb x (w.x + w.width) && leb w.y (y + 12) && leb y w.y

unfoldable pub hover_from : (ℕ → Window) → (x y i left : ℕ) → Option ℕ
hover_from ws x y i zero = none
hover_from ws x y i (suc left) =
    let rest = hover_from ws x y (i + 1) left in if on_title_bar (ws i) x y then some i else rest

unfoldable pub check_window_hover : Wm → (x y : ℕ) → Option ℕ
unfolding hover_from
check_window_hover s x y = hover_from s.windows x y 0 s.window_count

unfoldable pub index_from : (ℕ → Window) → (pid i left : ℕ) → Option ℕ
index_from ws pid i zero = none
index_from ws pid i (suc left) =
    let rest = index_from ws pid (i + 1) left in if (ws i).process_pid == pid then some i else rest

unfoldable pub get_index_from_pid : Wm → ℕ → Option ℕ
unfolding index_from
get_index_from_pid s pid = index_from s.windows pid 0 s.window_count

-- A bit of a row of an image, the highest bit of a byte first.
abbrev pub bit_of : (ℕ → ℕ) → (start col : ℕ) → Bool
bit_of bytes start col = not (bytes (start + col / 8) / 2 ^ (7 - col % 8) % 2 == 0)

-- The columns of a row, from `col` on.
abbrev pub draw_row : (ℕ → ℕ) → (start x y r g b col left : ℕ) → List Call
draw_row bytes start x y r g b col zero = []
draw_row bytes start x y r g b col (suc left) =
    let rest = draw_row bytes start x y r g b (col + 1) left in
    if bit_of bytes start col
    then Call.pixel ((x + col) % 2 ^ 16) (y % 2 ^ 16) r g b ∷ rest
    else rest

-- The rows of an image, from `row` on; the start of a row is an argument.
abbrev pub draw_rows : (ℕ → ℕ) → (start : ℕ → ℕ) → (width x y r g b row left : ℕ) → List Call
draw_rows bytes start width x y r g b row zero = []
draw_rows bytes start width x y r g b row (suc left) =
    draw_row bytes (start row) x (y + row) r g b 0 width
    ++ draw_rows bytes start width x y r g b (row + 1) left

abbrev pub dword : (ℕ → ℕ) → ℕ → ℕ
dword bytes a = bytes a + bytes (a + 1) * 2 ^ 8 + bytes (a + 2) * 2 ^ 16 + bytes (a + 3) * 2 ^ 24

-- `infoHeader->height > 0 ? infoHeader->height : -infoHeader->height`
abbrev pub bmp_height : (ℕ → ℕ) → ℕ
bmp_height bytes = let h = dword bytes 22 in if ltb h (2 ^ 31) then h else 2 ^ 32 - h

-- A negative width draws nothing.
abbrev pub bmp_width : (ℕ → ℕ) → ℕ
bmp_width bytes = let w = dword bytes 18 in if ltb w (2 ^ 31) then w else 0

-- The rows lie bottom up, a multiple of four bytes each.
abbrev pub bmp_row : (ℕ → ℕ) → ℕ → ℕ
bmp_row bytes row =
    dword bytes 10 + (bmp_height bytes - 1 - row) * ((bmp_width bytes + 31) / 32 * 4)

unfoldable pub parse_bmp : (ℕ → ℕ) → (x y r g b : ℕ) → List Call
parse_bmp bytes x y r g b =
    if not (bytes 0 == b'B') || not (bytes 1 == b'M')
    then []
    else if not (bytes 28 + bytes 29 * 2 ^ 8 == 1)
    then []
    else draw_rows bytes (bmp_row bytes) (bmp_width bytes) x y r g b 0 (bmp_height bytes)

-- The glyphs of a font lie behind its header of 6 bytes.
unfoldable pub draw_char : (ℕ → ℕ) → (index x y r g b : ℕ) → List Call
draw_char font index x y r g b =
    let bytes_per_row = (font 3 + 7) / 8 in
    let char_size = bytes_per_row * font 4 in
    if not (font 0 == b'P' && font 1 == b'B' && font 2 == b'F')
    then []
    else if leb (font 5) index
    then []
    else draw_rows font (λ row. 6 + index * char_size + row * bytes_per_row) (font 3) x y r g b 0
        (font 4)

-- The loop draws the NUL as well.
unfoldable pub render_str : List ℕ → (ℕ → ℕ) → (x y r g b : ℕ) → List Call
unfolding draw_char
render_str [] font x y r g b = draw_char font 0 x y r g b
render_str (c ∷ cs) font x y r g b =
    draw_char font c x y r g b ++ render_str cs font (x + 8) y r g b

-- What `drawWindow` draws of the window of its index. A title bar that would begin above the screen wraps round,
-- as its coordinate has 16 bits.
unfoldable pub draw_any : (font : ℕ → ℕ) → Window → List Call
unfolding render_str
draw_any font w =
    (if w.title_bar
      then Call.square w.x ((w.y + 2 ^ 16 - 12) % 2 ^ 16) w.width 12 22 186 159
        ∷ render_str w.name font (w.x + 2) (w.y + 2 ^ 16 - 10) 0 0 0
      else [])
    ++ (Call.square w.x w.y w.width w.height 54 54 54 ∷ [])

-- `drawWindow`, for an index that is not negative.
unfoldable pub draw_window : (font : ℕ → ℕ) → Wm → ℕ → List Call
unfolding draw_any
draw_window font s idx = if leb s.window_count idx then [] else draw_any font (s.windows idx)
