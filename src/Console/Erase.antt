-- ===== src/Console/Erase.antt =====
-- What `clearScr` and `\b` erase.
use acky.Base.{
  ℕ, zero, suc, ◌+◌, ◌-◌, ◌*◌, ◌/◌, ◌%◌, ◌<◌, ◌≡◌, ◌≢◌, ◌⊎◌, refl, arith, if◌then◌else◌, ◌==◌,
  update, some, false, leb, ltb, sub32, ◌^◌, ◌&&◌,
}
use acky.Ram.{Ram}
use acky.Console.{
  Console, video_mem_addr, screen_bytes, put_cell, put_char, scroll, print_char, clear_from,
  clear_scr, update_cursor_pos, back_from,
}
use acky.Console.Cells.{OnScreen, Printed, scroll_still}

clear_from_lem :
    (m : Ram) (color i left a : ℕ)
    → i % 2 ≡ 0
    → clear_from m color i left a
      ≡ (if leb i a && ltb a (i + 2 * left) then (if a % 2 == 0 then b' ' else color) else m a)
unfolding clear_from
clear_from_lem m color i zero a even = ground arith
clear_from_lem m color i (suc left) a even =
    ground (arith, clear_from_lem (update (update m i b' ') (i + 1) color) color (i + 2) left a)

-- `clearScr` blanks every cell of the screen and puts the pointer at its start; but its loop runs once
-- too often, so that the two bytes behind the screen are written too. No other byte changes.
pub clear_scr_lem :
    (c : Console) (a : ℕ)
    → ((clear_scr c).video_mem ≡ video_mem_addr)
      × ((clear_scr c).ram a ≡ (
          if leb video_mem_addr a && ltb a (video_mem_addr + screen_bytes + 2)
          then (if a % 2 == 0 then b' ' else c.color_attribute % 256)
          else c.ram a))
unfolding clear_scr
clear_scr_lem c a =
    (refl, clear_from_lem c.ram (c.color_attribute % 256) video_mem_addr 2001 a refl)

-- In every column but 48, the start of a row included, the test of `\b` for the start of a row fails:
-- the pointer goes back by one cell, whatever stands there.
pub back_from_row_start :
    (fuel : ℕ) (m : Ram) (row column : ℕ)
    → row < 25
    → column < 80
    → column ≢ 48
    → back_from fuel m (video_mem_addr + 160 * row + 2 * column)
      ≡ some (video_mem_addr + 160 * row + 2 * column - 2)
unfolding back_from
back_from_row_start fuel m row column r k other = ground arith

-- `\b` from a pointer behind the first cell, where the loop over spaces is not entered, goes back by one
-- cell, blanks it, writes only to the screen and leaves pointer and cursor on it.
pub print_char_back-Printed :
    (fuel : ℕ) (c : Console)
    → OnScreen c
    → c.video_mem ≢ video_mem_addr
    → ((c.ram (c.video_mem - 2) ≢ b' ') ⊎ (c.video_mem / 2 % 80 ≢ 0))
    → (c' : Console) × (print_char fuel c 8 ≡ some c') × Printed c c'
unfolding print_char put_char back_from scroll update_cursor_pos
print_char_back-Printed fuel c o inner test =
    let at = c.video_mem - 2 in
    let moved : sub32 c.video_mem 2 ≡ at = omega (arith, o.from, o.to) in
    let closed : (c.ram (sub32 c.video_mem 2) == b' ' && c.video_mem / 2 % 80 == 0) ≡ false =
      ground arith in
    let erased : Console = record c { video_mem = at; ram = put_cell c at b' ' } in
    let on : OnScreen erased = record {
      from = omega (arith, o.from, o.even);
      to = omega (arith, o.to);
      even = omega (arith, o.even, o.from);
    } in
    let run : put_char fuel c 8 ≡ some erased = ground arith in
    let still : scroll erased ≡ erased = scroll_still erased on.to in
    (
      update_cursor_pos erased (sub32 at video_mem_addr / 2),
      ground arith,
      record {
        on_screen = record { from = on.from; to = on.to; even = on.even };
        cursor = (
          sub32 at video_mem_addr / 2 / 2 ^ 8 % 256,
          sub32 at video_mem_addr / 2 % 256,
          refl,
          omega (arith, on.from, on.to),
        );
        outside = λ a out. ground (arith, on.from, on.to, on.even);
        same_color = refl;
      },
    )
