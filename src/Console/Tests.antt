-- ===== src/Console/Tests.antt =====
-- Tests of the text routines, and their theorems at a concrete screen.
use acky.Base.{
  ℕ, suc, zero, ◌+◌, ◌-◌, ◌*◌, ◌%◌, ◌≡◌, ◌≢◌, refl, arith, some, if◌then◌else◌, ltb, leb, ◌==◌,
  ◌&&◌, [], ◌∷◌, false, get_elem?, update,
}
use acky.Console.{
  put_char, scroll, update_cursor_pos, Console, print_char, print, clear_scr, back_from,
  video_mem_addr, screen_bytes,
}
use acky.Console.Cells.{
  OnScreen, is_shown, Printed, print_char-Printed, print_char-shown, print-OnScreen,
}
use acky.Console.Erase.{clear_scr_lem, back_from_row_start}

-- The pointer stands at the last cell of the screen.
abbrev full : Console
full = record { ram = λ a. 46; video_mem = 0xB8F9E; color_attribute = 0x0F; ports = [] }

full-OnScreen : OnScreen full
full-OnScreen = record { from = omega arith; to = omega arith; even = refl }

print_char-Printed_example : (c' : Console) × (print_char 0 full b'a' ≡ some c') × Printed full c'
print_char-Printed_example = print_char-Printed 0 full b'a' full-OnScreen (omega arith)

no_backspace : (i : ℕ) (ch : ℕ) → get_elem? (b'a' ∷ b'\n' ∷ []) i ≡ some ch → ch ≢ 8
no_backspace zero ch e = ground arith
no_backspace (suc zero) ch e = ground arith
no_backspace (suc (suc i)) ch e = ground arith

print-OnScreen_example :
    (c' : Console) × (print 0 full (b'a' ∷ b'\n' ∷ []) ≡ some c')
    × OnScreen c'
    × ((a : ℕ) → is_shown a ≡ false → c'.ram a ≡ full.ram a)
print-OnScreen_example = print-OnScreen 0 (b'a' ∷ b'\n' ∷ []) full full-OnScreen no_backspace

clear_scr_lem_example :
    ((clear_scr full).video_mem ≡ video_mem_addr)
    × ((clear_scr full).ram 0xB8FA1 ≡ (
        if leb video_mem_addr 0xB8FA1 && ltb 0xB8FA1 (video_mem_addr + screen_bytes + 2)
        then (if 0xB8FA1 % 2 == 0 then b' ' else full.color_attribute % 256)
        else full.ram 0xB8FA1))
clear_scr_lem_example = clear_scr_lem full 0xB8FA1

back_from_row_start_example :
    back_from 0 full.ram (video_mem_addr + 160 * 3 + 2 * 0)
    ≡ some (video_mem_addr + 160 * 3 + 2 * 0 - 2)
back_from_row_start_example =
    back_from_row_start 0 full.ram 3 0 (omega arith) (omega arith) (omega arith)

abbrev home : Console
home = record { ram = λ a. 46; video_mem = 0xB8000; color_attribute = 0x0F; ports = [] }

home-OnScreen : OnScreen home
home-OnScreen = record { from = omega arith; to = omega arith; even = refl }

-- `home` after an `a`.
abbrev printed : Console
printed = record {
  ram = update (update (λ a. 46) 0xB8000 b'a') 0xB8001 0x0F;
  video_mem = 0xB8002;
  color_attribute = 0x0F;
  ports =
      record { port = 0x3D5; value = 0 }
      ∷ record { port = 0x3D4; value = 0x0E }
      ∷ record { port = 0x3D5; value = 1 }
      ∷ record { port = 0x3D4; value = 0x0F }
      ∷ [];
}

print_home : print_char 0 home b'a' ≡ some printed
unfolding print_char put_char scroll update_cursor_pos
print_home = refl

print_char-shown_example : (printed.ram 0xB8000 ≡ b'a') × (printed.ram 0xB8001 ≡ 0x0F)
print_char-shown_example =
    print_char-shown 0 home printed b'a' home-OnScreen (omega arith) (omega arith) print_home
