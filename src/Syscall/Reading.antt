-- ===== src/Syscall/Reading.antt =====
-- The call that asks for a line, and the keyboard interrupt that reads it.
use acky.Base.{
  ℕ, ◌+◌, ◌<◌, ◌≤◌, ◌≡◌, ◌≢◌, ◌⊎◌, u32, none, some, Option, if◌then◌else◌, List, [], ◌∷◌,
}
use acky.Console.{video_mem_addr, screen_bytes}
use acky.Console.Cells.{OnScreen}
use acky.Keyboard.{KeyboardState, ps2_kbd_isr}
use acky.Keyboard.Handler.{types}
use acky.Keyboard.Press.{add_char, char_of}
use acky.Syscall.{System, console_of, caller}

-- The buffer of the call lies in the memory of the process, which lies beside the screen.
pub record IsBuffer (s : System) (ebx ecx : ℕ) : Type 0 where
  pub inside : ebx + ecx ≤ (caller s).mem_size
  pub some_room : 0 < ecx
  pub small : ecx < 0x80000000
  pub bounded : (caller s).mem_start + (caller s).mem_size < u32
  pub apart :
      ((caller s).mem_start + (caller s).mem_size ≤ video_mem_addr)
      ⊎ (video_mem_addr + screen_bytes ≤ (caller s).mem_start)
  pub unread : s.input.process_buffer_pos ≡ 0
  pub on_screen : OnScreen (console_of s)

-- The keyboard interrupts of some scan codes, in order.
unfoldable pub press_all :
    (fuel : ℕ) → (beyond : ℕ → ℕ) → List ℕ → KeyboardState → Option KeyboardState
press_all fuel beyond [] m = some m
press_all fuel beyond (code ∷ codes) m = elim (ps2_kbd_isr fuel beyond code m) [
  | none ↦ none
  | some m' ↦ press_all fuel beyond codes m'
]

-- What is typed with them behind the text `cs`: the characters of the keys that give one, as far as they fit.
unfoldable pub text_after : (fuel : ℕ) → (beyond : ℕ → ℕ) → List ℕ → KeyboardState → List ℕ → List ℕ
text_after fuel beyond [] m cs = cs
text_after fuel beyond (code ∷ codes) m cs =
    let cs' = if types m.keys code then add_char m cs (char_of beyond m code) else cs in
    elim (ps2_kbd_isr fuel beyond code m) [
      | none ↦ cs'
      | some m' ↦ text_after fuel beyond codes m' cs'
    ]

-- Keys up to scan code 58 and releases, but for Enter and Return.
abbrev pub Plain : List ℕ → Type 0
Plain [] = Unit
Plain (code ∷ codes) = ((code < 59) ⊎ (0x80 ≤ code)) × (code ≢ 28) × (code ≢ 14) × Plain codes
