-- ===== src/Keyboard/Tests.antt =====
-- Tests of the keyboard interrupt, and its theorems at a concrete line.
use acky.Base.{ℕ, ◌≡◌, refl, arith, if◌then◌else◌, some, true, false, [], ◌∷◌, inl, inr, update}
use acky.Process.Sample.{proc}
use acky.Keyboard.{Keys, KeyboardState, ps2_kbd_isr, scancode_to_char}
use acky.Keyboard.Line.{IsEditing, EditsTo}
use acky.Keyboard.Press.{add_char, char_of, erase, Entered}
use acky.Keyboard.Handler.{types, ps2_kbd_isr-EditsTo, ps2_kbd_isr_return, ps2_kbd_isr_enter}

-- What lies behind a table.
abbrev beyond : ℕ → ℕ
beyond i = 0

abbrev no_keys : Keys
no_keys = record {
  left_shift = true;
  right_shift = false;
  caps_lock = false;
  alt_pressed = false;
  left_ctrl_pressed = false;
  k_pressed = false;
  layout = true;
}

-- Process 1 reads into 8 bytes, and `b` was typed.
abbrev reading : KeyboardState
reading = record {
  keys = no_keys;
  input = record {
    process_buffer_loc = 0x300010;
    process_buffer_pos = 1;
    process_buffer_size = 8;
    process_waiting_for_input = true;
    input_wainting_pid = 1;
  };
  processes = proc;
  console = record {
    ram = update (λ a. 46) 0x300010 b'b';
    video_mem = 0xB8002;
    color_attribute = 0x07;
    ports = [];
  };
}

reading-IsEditing : IsEditing reading (b'b' ∷ [])
reading-IsEditing = record {
  waits = refl;
  position = refl;
  room = omega arith;
  small = omega arith;
  bounded = omega arith;
  apart = inr (omega arith);
  typed = (refl, tt);
  on_screen = record { from = omega arith; to = omega arith; even = refl };
}

upper_a : scancode_to_char beyond true 30 true ≡ b'A'
unfolding scancode_to_char
upper_a = refl

ps2_kbd_isr-EditsTo_example : EditsTo (ps2_kbd_isr 0 beyond 30 reading) reading (
    if types reading.keys 30
    then add_char reading (b'b' ∷ []) (char_of beyond reading 30)
    else b'b' ∷ [])
ps2_kbd_isr-EditsTo_example =
    ps2_kbd_isr-EditsTo 0 beyond 30 reading (b'b' ∷ []) reading-IsEditing (inl (omega arith))
      (omega arith) (omega arith)

ps2_kbd_isr_return_example : EditsTo (ps2_kbd_isr 0 beyond 14 reading) reading (erase (b'b' ∷ []))
ps2_kbd_isr_return_example =
    ps2_kbd_isr_return 0 beyond reading (b'b' ∷ []) reading-IsEditing
      (omega arith, inl (omega arith))

ps2_kbd_isr_enter_example :
    (m' : KeyboardState) × (ps2_kbd_isr 0 beyond 28 reading ≡ some m')
    × Entered reading (b'b' ∷ []) m'
ps2_kbd_isr_enter_example = ps2_kbd_isr_enter 0 beyond reading (b'b' ∷ []) reading-IsEditing
