-- ===== src/Wm/Tests.antt =====
-- Tests of the window manager, and its theorems at concrete messages.
use acky.Base.{
  ℕ, ◌+◌, ◌*◌, ◌<◌, ◌≡◌, ◌≢◌, ◌⊎◌, refl, arith, true, if◌then◌else◌, ◌==◌, some, List, [], ◌∷◌,
}
use acky.Base.Int.{pos}
use acky.Wm.{Call, Wm, check_window_hover, hover_from, parse_bmp, bmp_row}
use acky.Wm.Image.{All, IsDot, parse_bmp-IsDot}
use acky.Wm.Pointer.{Colour, OnScreen, mouse_moved, mouse_moved-OnScreen}
use acky.Wm.Session.{Message, moumov, cwin, unknown}
use acky.Wm.Start.{File}
use acky.Wm.Request.{DrawReq, Within, draw_requested, draw_requested-Within}

abbrev two_windows : Wm
two_windows = record {
  windows = λ i. record {
    name = b'W' ∷ [];
    x = 100 * i;
    y = 200;
    width = 80;
    height = 50;
    process_pid = 10 + i;
    title_bar = true;
  };
  window_count = 2;
  mouse_x = pos 110;
  mouse_y = pos 195;
}

hovers_second : check_window_hover two_windows 110 195 ≡ some 1
unfolding check_window_hover hover_from
hovers_second = refl

-- An image of two columns and one row, both set, in the letters of a file.
abbrev dots : ℕ → ℕ
dots i =
    if i == 0
    then b'B'
    else if i == 1
    then b'M'
    else if i == 10
    then 62
    else if i == 18
    then 2
    else if i == 22
    then 1
    else if i == 28
    then 1
    else if i == 62
    then 192
    else 0

two_dots : parse_bmp dots 5 6 1 2 3 ≡ Call.pixel 5 6 1 2 3 ∷ Call.pixel 6 6 1 2 3 ∷ []
unfolding parse_bmp
two_dots = refl

parse_bmp-IsDot_example : All (IsDot dots (bmp_row dots) 2 1 5 6 1 2 3) (parse_bmp dots 5 6 1 2 3)
parse_bmp-IsDot_example = parse_bmp-IsDot dots 5 6 1 2 3

abbrev black : ℕ → Colour
black i = record { r = 0; g = 0; b = 0 }

mouse_moved-OnScreen_example :
    (let s' = (mouse_moved dots dots black 127 5 1 two_windows).0 in
      OnScreen s'
      × (s'.window_count ≡ 2)
      × ((j : ℕ)
          → check_window_hover two_windows 110 195 ≢ some j
          → s'.windows j ≡ two_windows.windows j))
mouse_moved-OnScreen_example = mouse_moved-OnScreen dots dots black 127 5 1 two_windows

abbrev request : DrawReq
request = record { type = 0; x = 10; y = 20; r = 1; g = 2; b = 3; end_x = 0; end_y = 0 }

abbrev few_windows : Wm
few_windows = record two_windows {
  windows = λ i. record (two_windows.windows 1) { process_pid = 11 };
}

draw_requested-Within_example :
    (((j : ℕ) → j < 2 → (few_windows.windows j).process_pid ≢ 11)
      → draw_requested 11 request few_windows ≡ [])
    × ((draw_requested 11 request few_windows ≡ [])
        ⊎ ((idx : ℕ) × (idx < 2)
            × ((few_windows.windows idx).process_pid ≡ 11)
            × All (Within (few_windows.windows idx)) (draw_requested 11 request few_windows)))
draw_requested-Within_example =
    draw_requested-Within 11 request few_windows (λ j h. (omega arith, omega arith))

abbrev dots_file : File
dots_file = record { loaded = true; bytes = dots }

abbrev messages : List Message
messages =
    moumov black 127 5 1
    ∷ cwin (two_windows.windows 0) 7
        (record { x = 40; y = 40; width = 200; height = 100; name = b'T' ∷ [] })
    ∷ unknown
    ∷ []
