-- ===== src/Console.antt =====
-- The text mode of foki/vga.c. `video_mem` is the write pointer into the video memory of 25 rows of
-- 80 cells from 0xB8000, a byte for the character and one for its colour each. The bytes sent to
-- the ports are recorded, the last one first. The loop of `\b` over spaces has no bound in the
-- source, so it takes fuel, and `none` means that it still runs.
mod Tests
pub mod Cells
pub mod Erase
use acky.Base.{
  ℕ, zero, suc, ◌+◌, ◌-◌, ◌*◌, ◌/◌, ◌%◌, ◌^◌, if◌then◌else◌, ◌==◌, ltb, leb, update, add32, sub32,
  Option, none, some, Bool, ◌&&◌, List, [], ◌∷◌, not, bit_and, bit_or,
}
use acky.Io.{PortWrite, outb}
use acky.Ram.{Ram, memcpy}

abbrev pub video_mem_addr : ℕ
video_mem_addr = 0xB8000

abbrev pub screen_bytes : ℕ
screen_bytes = 80 * 25 * 2

pub record Console : Type 0 where
  pub ram : Ram
  pub video_mem : ℕ
  pub color_attribute : ℕ
  pub ports : List PortWrite

unfoldable pub update_cursor_pos : Console → ℕ → Console
update_cursor_pos c offset = record c {
  ports =
      outb 0x3D5 (offset / 2 ^ 8) ∷ outb 0x3D4 0x0E ∷ outb 0x3D5 offset ∷ outb 0x3D4 0x0F ∷ c.ports;
}

unfoldable pub set_color_attribute : Console → ℕ → Console
set_color_attribute c attr = record c { color_attribute = attr }

-- `*at = value; *(at + 1) = colorAttribute;`
abbrev pub put_cell : Console → ℕ → ℕ → Ram
put_cell c at value = update (update c.ram at value) (add32 at 1) (c.color_attribute % 256)

-- `while (*video_mem == ' ') video_mem -= 2;`
unfoldable pub skip_spaces : ℕ → Ram → ℕ → Option ℕ
skip_spaces zero m at = none
skip_spaces (suc fuel) m at =
    let rest = skip_spaces fuel m (sub32 at 2) in if m at == b' ' then rest else some at

-- The pointer that `\b` goes back to.
unfoldable pub back_from : ℕ → Ram → ℕ → Option ℕ
back_from fuel m at =
    if m (sub32 at 2) == b' ' && at / 2 % 80 == 0
    then elim (skip_spaces fuel m at) [ none ↦ none | some p ↦ some (add32 p 2) ]
    else some (sub32 at 2)

-- The `switch` of `printChar`.
unfoldable pub put_char : ℕ → Console → ℕ → Option Console
put_char fuel c ch =
    if ch == b'\n'
    then some (record c {
      video_mem = add32 c.video_mem (80 * 2 - (c.video_mem - video_mem_addr) % (80 * 2));
    })
    else if ch == 8
    then elim (back_from fuel c.ram c.video_mem) [
      | none ↦ none
      | some at ↦ some (record c { video_mem = at; ram = put_cell c at b' ' })
    ]
    else some (record c { ram = put_cell c c.video_mem ch; video_mem = add32 c.video_mem 2 })

-- The loop that blanks the last row, byte by byte from `i` on.
unfoldable pub blank_row : Ram → ℕ → ℕ → ℕ → Ram
blank_row m color i zero = m
blank_row m color i (suc left) =
    blank_row (update m i (if (i - video_mem_addr) % 2 == 0 then b' ' else color)) color (i + 1)
      left

-- The rows move up by one, and the last is blanked.
unfoldable pub scroll_up : Console → Console
scroll_up c = record c {
  ram =
      blank_row (memcpy c.ram video_mem_addr (video_mem_addr + 80 * 2) (80 * 24 * 2))
        (c.color_attribute % 256) (video_mem_addr + 80 * 24 * 2) (80 * 2);
  video_mem = video_mem_addr + 80 * 24 * 2;
}

-- `if (video_mem >= VIDEO_MEM_ADDR + 80*25*2)`.
unfoldable pub scroll : Console → Console
scroll c = if leb (video_mem_addr + screen_bytes) c.video_mem then scroll_up c else c

unfoldable pub print_char : ℕ → Console → ℕ → Option Console
print_char fuel c ch = elim (put_char fuel c ch) [
  | none ↦ none
  | some c' ↦ let s = scroll c' in some (update_cursor_pos s (sub32 s.video_mem video_mem_addr / 2))
]

-- `print` of the text whose bytes are listed.
unfoldable pub print : ℕ → Console → List ℕ → Option Console
print fuel c [] = some c
print fuel c (ch ∷ chs) = elim (print_char fuel c ch) [ none ↦ none | some c' ↦ print fuel c' chs ]

-- `for (i = VIDEO_MEM_ADDR; i <= VIDEO_MEM_ADDR + 80*25*2; i += 2)`, from `i` on.
unfoldable pub clear_from : Ram → ℕ → ℕ → ℕ → Ram
clear_from m color i zero = m
clear_from m color i (suc left) =
    clear_from (update (update m i b' ') (i + 1) color) color (i + 2) left

-- The loop runs for the 2001 even offsets from 0 to 4000.
unfoldable pub clear_scr : Console → Console
clear_scr c = record c {
  ram = clear_from c.ram (c.color_attribute % 256) video_mem_addr 2001;
  video_mem = video_mem_addr;
}

-- The arguments `start_in` and `end_in` are what the port reads back.
unfoldable pub enable_cursor : Console → (cursor_start cursor_end start_in end_in : ℕ) → Console
enable_cursor c cursor_start cursor_end start_in end_in = record c {
  ports =
      outb 0x3D5 (bit_or (bit_and end_in 0xE0) cursor_end)
      ∷ outb 0x3D4 0x0B
      ∷ outb 0x3D5 (bit_or (bit_and start_in 0xC0) cursor_start)
      ∷ outb 0x3D4 0x0A
      ∷ c.ports;
}

unfoldable pub disable_cursor : Console → Console
disable_cursor c = record c { ports = outb 0x3D5 0x20 ∷ outb 0x3D4 0x0A ∷ c.ports }
