-- ===== src/Console/Cells.antt =====
-- Where the text routines write, and what the screen shows after them.
use acky.Base.{
  ℕ, zero, suc, ◌+◌, ◌-◌, ◌*◌, ◌/◌, ◌%◌, ◌≤◌, ◌<◌, ◌≡◌, ◌≢◌, refl, arith, if◌then◌else◌, ◌==◌,
  add32, update, some, false, Bool, leb, ltb, sub32, ◌^◌, ◌∙◌, Bool-cases, inl, inr, ◌&&◌, List, [],
  ◌∷◌, get_elem?,
}
use acky.Io.{PortWrite}
use acky.Ram.{Ram, memcpy}
use acky.Ram.Copy.{memcpy_lem}
use acky.Console.{
  Console, video_mem_addr, screen_bytes, put_cell, put_char, blank_row, scroll_up, scroll,
  print_char, print, update_cursor_pos,
}

-- The pointer stands at a cell of the screen.
pub record OnScreen (c : Console) : Type 0 where
  pub from : video_mem_addr ≤ c.video_mem
  pub to : c.video_mem < video_mem_addr + screen_bytes
  pub even : c.video_mem % 2 ≡ 0

-- The address lies in the memory of the 25 rows.
abbrev pub is_shown : ℕ → Bool
is_shown a = leb video_mem_addr a && ltb a (video_mem_addr + screen_bytes)

blank_row_lem :
    (m : Ram) (color i left a : ℕ)
    → blank_row m color i left a ≡ (
        if leb i a && ltb a (i + left)
        then (if (a - video_mem_addr) % 2 == 0 then b' ' else color)
        else m a)
unfolding blank_row
blank_row_lem m color i zero a = ground arith
blank_row_lem m color i (suc left) a = ground (
  arith,
  blank_row_lem (update m i (if (i - video_mem_addr) % 2 == 0 then b' ' else color)) color (i + 1)
      left a,
)

-- Scrolling moves each row up by one and blanks the last. No byte outside the screen changes.
scroll_up_lem :
    (c : Console) (a : ℕ)
    → (scroll_up c).ram a ≡ (
        if leb video_mem_addr a && ltb a (video_mem_addr + 80 * 24 * 2)
        then c.ram (a + 80 * 2)
        else if leb (video_mem_addr + 80 * 24 * 2) a && ltb a (video_mem_addr + screen_bytes)
        then (if (a - video_mem_addr) % 2 == 0 then b' ' else c.color_attribute % 256)
        else c.ram a)
unfolding scroll_up
scroll_up_lem c a =
    let moved = memcpy c.ram video_mem_addr (video_mem_addr + 80 * 2) (80 * 24 * 2) in
    ground (
      arith,
      memcpy_lem c.ram video_mem_addr (video_mem_addr + 80 * 2) (80 * 24 * 2) a (omega arith)
          (omega arith) (inl (omega arith)),
      blank_row_lem moved (c.color_attribute % 256) (video_mem_addr + 80 * 24 * 2) (80 * 2) a,
    )

-- The last four bytes sent put the cursor where the pointer stands.
abbrev pub CursorAt : Console → List PortWrite → Type 0
CursorAt c before =
    let offset = (c.video_mem - video_mem_addr) / 2 in
    (hi : ℕ) × (lo : ℕ) × (c.ports
      ≡ record { port = 0x3D5; value = hi }
        ∷ record { port = 0x3D4; value = 0x0E }
        ∷ record { port = 0x3D5; value = lo }
        ∷ record { port = 0x3D4; value = 0x0F }
        ∷ before)
    × (hi * 256 + lo ≡ offset)

-- What a printed character leaves: a pointer on the screen, the cursor at it, and no byte changed
-- outside the screen.
pub record Printed (c c' : Console) : Type 0 where
  pub on_screen : OnScreen c'
  pub cursor : CursorAt c' c.ports
  pub outside : (a : ℕ) → is_shown a ≡ false → c'.ram a ≡ c.ram a
  pub same_color : c'.color_attribute ≡ c.color_attribute

-- Scrolling brings a pointer that is at most a row behind the screen back onto it.
scroll-OnScreen :
    (c : Console)
    → video_mem_addr ≤ c.video_mem
    → c.video_mem % 2 ≡ 0
    → OnScreen (scroll c)
      × ((scroll c).ports ≡ c.ports)
      × ((scroll c).color_attribute ≡ c.color_attribute)
unfolding scroll scroll_up
scroll-OnScreen c from even = (
  record { from = ground arith; to = ground arith; even = ground arith },
  ground arith,
  ground arith,
)

scroll_outside : (c : Console) (a : ℕ) → is_shown a ≡ false → (scroll c).ram a ≡ c.ram a
unfolding scroll
scroll_outside c a out = ground (arith, scroll_up_lem c a)

-- What `put_char` leaves for a character other than `\b`.
abbrev pub after_char : Console → ℕ → Console
after_char c ch =
    if ch == b'\n'
    then record c {
      video_mem = add32 c.video_mem (80 * 2 - (c.video_mem - video_mem_addr) % (80 * 2));
    }
    else record c { ram = put_cell c c.video_mem ch; video_mem = add32 c.video_mem 2 }

print_char_lem :
    (fuel : ℕ) (c : Console) (ch : ℕ)
    → ch ≢ 8
    → let s = scroll (after_char c ch) in
      print_char fuel c ch ≡ some (update_cursor_pos s (sub32 s.video_mem video_mem_addr / 2))
unfolding print_char put_char
print_char_lem fuel c ch other = ground arith

after_char_bounds :
    (c : Console) (ch : ℕ)
    → OnScreen c
    → (video_mem_addr ≤ (after_char c ch).video_mem) × ((after_char c ch).video_mem % 2 ≡ 0)
after_char_bounds c ch o = ground (arith, o.from, o.to, o.even)

after_char_outside :
    (c : Console) (ch a : ℕ) → OnScreen c → is_shown a ≡ false → (after_char c ch).ram a ≡ c.ram a
after_char_outside c ch a o out = ground (arith, o.from, o.to, o.even)

-- From a pointer on the screen every character but `\b` is printed without a loop, writes only to
-- the screen, scrolls when the last row is full, and leaves pointer and cursor on the screen.
pub print_char-Printed :
    (fuel : ℕ) (c : Console) (ch : ℕ)
    → OnScreen c
    → ch ≢ 8
    → (c' : Console) × (print_char fuel c ch ≡ some c') × Printed c c'
unfolding update_cursor_pos
print_char-Printed fuel c ch o other =
    let d = after_char c ch in
    let s = scroll d in
    let (from, even) = after_char_bounds c ch o in
    let (on, ports, color) = scroll-OnScreen d from even in
    let offset : sub32 s.video_mem video_mem_addr ≡ s.video_mem - video_mem_addr =
      omega (arith, on.from, on.to) in
    (
      update_cursor_pos s (sub32 s.video_mem video_mem_addr / 2),
      print_char_lem fuel c ch other,
      record {
        on_screen = record { from = on.from; to = on.to; even = on.even };
        cursor = (
          sub32 s.video_mem video_mem_addr / 2 / 2 ^ 8 % 256,
          sub32 s.video_mem video_mem_addr / 2 % 256,
          ground arith,
          omega (arith, on.from, on.to),
        );
        outside = λ a out. scroll_outside d a out ∙ after_char_outside c ch a o out;
        same_color = ground arith;
      },
    )

after_char_cell :
    (c : Console) (ch : ℕ)
    → OnScreen c
    → ch ≢ b'\n'
    → ((after_char c ch).ram c.video_mem ≡ ch)
      × ((after_char c ch).ram (c.video_mem + 1) ≡ c.color_attribute % 256)
      × ((after_char c ch).video_mem ≡ c.video_mem + 2)
after_char_cell c ch o ordinary = (ground (arith, o.to), ground (arith, o.to), ground (arith, o.to))

-- A byte that stands on the screen when the pointer has left it moves up by one row.
scroll_moved :
    (c : Console) (a : ℕ)
    → video_mem_addr + screen_bytes ≤ c.video_mem
    → video_mem_addr + 80 * 2 ≤ a
    → a < video_mem_addr + screen_bytes
    → (scroll c).ram (a - 80 * 2) ≡ c.ram a
unfolding scroll
scroll_moved c a left from to =
    let e : a - 80 * 2 + 80 * 2 ≡ a = omega arith in ground (arith, scroll_up_lem c (a - 80 * 2))

pub scroll_still : (c : Console) → c.video_mem < video_mem_addr + screen_bytes → scroll c ≡ c
unfolding scroll
scroll_still c on = ground arith

-- An ordinary character and the current colour stand, after it is printed, in the cell that the
-- pointer was at, or in the cell above when that was the last of the screen.
pub print_char-shown :
    (fuel : ℕ) (c c' : Console) (ch : ℕ)
    → OnScreen c
    → ch ≢ 8
    → ch ≢ b'\n'
    → print_char fuel c ch ≡ some c'
    → let at =
        if c.video_mem == video_mem_addr + screen_bytes - 2
        then c.video_mem - 80 * 2
        else c.video_mem in
      (c'.ram at ≡ ch) × (c'.ram (at + 1) ≡ c.color_attribute % 256)
unfolding update_cursor_pos
print_char-shown fuel c c' ch o other ordinary run =
    let d = after_char c ch in
    let (value, color, moved) = after_char_cell c ch o ordinary in
    let same : c'.ram ≡ (scroll d).ram = ground (arith, print_char_lem fuel c ch other) in
    elim (Bool-cases (c.video_mem == video_mem_addr + screen_bytes - 2)) [
      | inl last ↦
          let up : c.video_mem - 80 * 2 + 1 ≡ c.video_mem + 1 - 80 * 2 = ground arith in
          rw (last, same)
            (
              scroll_moved d c.video_mem (ground arith) (ground arith) (ground arith) ∙ value,
              rw up (scroll_moved d (c.video_mem + 1) (ground arith) (ground arith) (ground arith))
                  ∙ color,
            )
      | inr inner ↦
          let still = scroll_still d (ground (arith, o.to, o.even)) in
          rw (inner, same, still) (value, color)
    ]

-- `print` of a text without `\b` from a pointer on the screen is total, stays on the screen and
-- changes no byte outside it, however long the text is.
pub print-OnScreen :
    (fuel : ℕ) (text : List ℕ) (c : Console)
    → OnScreen c
    → ((i : ℕ) (ch : ℕ) → get_elem? text i ≡ some ch → ch ≢ 8)
    → (c' : Console) × (print fuel c text ≡ some c')
      × OnScreen c'
      × ((a : ℕ) → is_shown a ≡ false → c'.ram a ≡ c.ram a)
unfolding print
print-OnScreen fuel [] c o ok = (c, refl, o, λ a out. refl)
print-OnScreen fuel (ch ∷ chs) c o ok =
    let (d, run, p) = print_char-Printed fuel c ch o (ok 0 ch refl) in
    let (c', rest, on, outside) = print-OnScreen fuel chs d p.on_screen (λ i x e. ok (suc i) x e) in
    (c', ground arith, on, λ a out. outside a out ∙ p.outside a out)
