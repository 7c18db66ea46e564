-- ===== src/Keyboard.antt =====
-- The keyboard interrupt of foki/ps2kbd.c. An `int` is its bit pattern and `int_ltb` compares two of
-- them. The memory is that of the console, which holds the screen as well as the buffer that a
-- process reads into. What lies behind a table of characters is an argument, as the code does not
-- check the index. The segment registers and the word for the interrupt controller are not kept.
mod Tests
pub mod Tables
pub mod Chars
pub mod Line
pub mod Press
pub mod Handler
use acky.Base.{
  ℕ, suc, ◌+◌, if◌then◌else◌, ◌==◌, ltb, leb, update, add32, sub32, Option, none, some, Bool, true,
  false, ◌&&◌, ◌||◌, not, List, [], ◌∷◌, get_elem?,
}
use acky.Console.{Console, print_char, print}
use acky.Process.{Process}
use acky.Keyboard.Tables.{table_upper_fr, table_lower_fr, table_lower_uk, table_upper_uk}

abbrev pub int_ltb : ℕ → ℕ → Bool
int_ltb x y = ltb (add32 x 0x80000000) (add32 y 0x80000000)

-- The keys that are held down, and the layout.
pub record Keys : Type 0 where
  pub left_shift : Bool
  pub right_shift : Bool
  pub caps_lock : Bool
  pub alt_pressed : Bool
  pub left_ctrl_pressed : Bool
  pub k_pressed : Bool
  pub layout : Bool

-- The buffer of the process that waits for a line, and that process' index.
pub record Input : Type 0 where
  pub process_buffer_loc : ℕ
  pub process_buffer_pos : ℕ
  pub process_buffer_size : ℕ
  pub process_waiting_for_input : Bool
  pub input_wainting_pid : ℕ

pub record KeyboardState : Type 0 where
  pub keys : Keys
  pub input : Input
  pub processes : ℕ → Process
  pub console : Console

unfoldable pub scancode_to_char : (ℕ → ℕ) → Bool → ℕ → Bool → ℕ
scancode_to_char beyond layout scancode upper_case =
    let table =
      if upper_case
      then (if layout then table_upper_uk else table_upper_fr)
      else (if layout then table_lower_uk else table_lower_fr) in
    elim (get_elem? table (scancode + 1)) [ none ↦ beyond (scancode + 1) | some c ↦ c ]

-- `processBufferLoc[at] = value;`
abbrev pub put_buffer : KeyboardState → ℕ → ℕ → Console
put_buffer m at value = record m.console {
  ram = update m.console.ram (add32 m.input.process_buffer_loc at) value;
}

-- `printChar` behind another change.
abbrev pub with_char : ℕ → KeyboardState → ℕ → Option KeyboardState
with_char fuel m ch = elim (print_char fuel m.console ch) [
  | none ↦ none
  | some c ↦ some (record m { console = c })
]

-- The case of Enter.
unfoldable pub press_enter : ℕ → KeyboardState → Option KeyboardState
press_enter fuel m =
    if m.input.process_waiting_for_input
    then with_char fuel
        (record m {
          input = record m.input {
            process_waiting_for_input = false;
            process_buffer_pos = 0;
            process_buffer_size = 0;
          };
          processes =
              update m.processes m.input.input_wainting_pid
                (record (m.processes m.input.input_wainting_pid) { waiting = false });
          console = put_buffer m m.input.process_buffer_pos 0;
        })
        b'\n'
    else some m

-- The case of the key that deletes.
unfoldable pub press_return : ℕ → KeyboardState → Option KeyboardState
press_return fuel m =
    let pos = sub32 m.input.process_buffer_pos 1 in
    if int_ltb 0 m.input.process_buffer_pos && m.input.process_waiting_for_input
    then with_char fuel
        (record m {
          input = record m.input { process_buffer_pos = pos };
          console = put_buffer m pos 0;
        })
        8
    else some m

-- The `default` case for a key that is pressed.
unfoldable pub press_char : ℕ → (ℕ → ℕ) → ℕ → KeyboardState → Option KeyboardState
unfolding scancode_to_char
press_char fuel beyond scan_code m =
    let k = m.keys in
    let c =
      scancode_to_char beyond k.layout scan_code (k.caps_lock || k.left_shift || k.right_shift) in
    if m.input.process_waiting_for_input
      && int_ltb m.input.process_buffer_pos (sub32 m.input.process_buffer_size 1)
    then with_char fuel
        (record m {
          input = record m.input { process_buffer_pos = add32 m.input.process_buffer_pos 1 };
          console = put_buffer m m.input.process_buffer_pos c;
        })
        c
    else some m

-- The text ` # WIP; Kernel key # `.
abbrev pub kernel_key_text : List ℕ
kernel_key_text =
    32 ∷ 35 ∷ 32 ∷ 87 ∷ 73 ∷ 80 ∷ 59 ∷ 32 ∷ 75 ∷ 101 ∷ 114 ∷ 110 ∷ 101 ∷ 108 ∷ 32 ∷ 107 ∷ 101 ∷ 121
    ∷ 32 ∷ 35 ∷ 32 ∷ []

-- What stands behind the `switch`.
unfoldable pub kernel_key : ℕ → KeyboardState → Option KeyboardState
kernel_key fuel m =
    let k = m.keys in
    if k.k_pressed && k.alt_pressed && k.left_ctrl_pressed && k.left_shift
    then elim (print fuel m.console kernel_key_text) [
      | none ↦ none
      | some c ↦ some (record m { console = c })
    ]
    else some m

abbrev pub and_then :
    Option KeyboardState → (KeyboardState → Option KeyboardState) → Option KeyboardState
and_then o f = elim o [ none ↦ none | some m ↦ f m ]

-- The `default` case: a key that is released ends the handler.
abbrev pub other_key : ℕ → (ℕ → ℕ) → ℕ → KeyboardState → Option KeyboardState
other_key fuel beyond scan_code m =
    if leb 0x80 scan_code
    then some m
    else and_then (press_char fuel beyond scan_code m) (kernel_key fuel)

-- `ps2KBDISR` for the scan code that the port gives back.
unfoldable pub ps2_kbd_isr : ℕ → (ℕ → ℕ) → ℕ → KeyboardState → Option KeyboardState
unfolding press_enter press_return press_char kernel_key
ps2_kbd_isr fuel beyond scan_code m =
    let k = m.keys in
    let held = λ (keys : Keys). kernel_key fuel (record m { keys = keys }) in
    let with_k = record m { keys = record k { k_pressed = true } } in
    if scan_code == 28
    then and_then (press_enter fuel m) (kernel_key fuel)
    else if scan_code == 58
    then held (record k { caps_lock = not k.caps_lock })
    else if scan_code == 54
    then held (record k { right_shift = true })
    else if scan_code == 182
    then held (record k { right_shift = false })
    else if scan_code == 42
    then held (record k { left_shift = true })
    else if scan_code == 170
    then held (record k { left_shift = false })
    else if scan_code == 14
    then and_then (press_return fuel m) (kernel_key fuel)
    else if scan_code == 56
    then held (record k { alt_pressed = true })
    else if scan_code == 184
    then held (record k { alt_pressed = false })
    else if scan_code == 29
    then held (record k { left_ctrl_pressed = true })
    else if scan_code == 157
    then held (record k { left_ctrl_pressed = false })
    else if scan_code == 165
    then held (record k { k_pressed = false })
    else if scan_code == 37
    then (if k.alt_pressed && k.left_ctrl_pressed && k.left_shift
        then kernel_key fuel with_k
        else other_key fuel beyond scan_code with_k)
    else other_key fuel beyond scan_code m
