-- ===== src/Keyboard/Handler.antt =====
-- The keyboard interrupt as a whole, for a process that waits for a line.
use acky.Base.{
  ℕ, ◌+◌, ◌≤◌, ◌<◌, ◌≡◌, ◌≢◌, ◌⊎◌, refl, arith, if◌then◌else◌, ◌==◌, ltb, leb, Option, some, Bool,
  true, false, ◌&&◌, ◌||◌, not, List, length, inl, inr, Bool-cases, ◌∙◌,
}
use acky.Console.Cells.{is_shown}
use acky.Keyboard.{
  Keys, KeyboardState, press_return, press_char, kernel_key, ps2_kbd_isr, other_key, and_then,
}
use acky.Keyboard.Line.{TypedText-same, IsEditing, EditsTo, kernel_key-OnScreen, kernel_key-EditsTo}
use acky.Keyboard.Press.{
  add_char, char_of, CanGoBack, erase, Entered, press_char-EditsTo, press_return-EditsTo,
  press_enter-Entered,
}

IsEditing-keys :
    (m : KeyboardState) (k : Keys) (cs : List ℕ)
    → IsEditing m cs
    → IsEditing (record m { keys = k }) cs
IsEditing-keys m k cs e = record {
  waits = e.waits;
  position = e.position;
  room = e.room;
  small = e.small;
  bounded = e.bounded;
  apart = e.apart;
  typed = e.typed;
  on_screen = e.on_screen;
}

EditsTo-and_then :
    (fuel : ℕ) (o : Option KeyboardState) (m : KeyboardState) (cs : List ℕ)
    → EditsTo o m cs
    → EditsTo (and_then o (kernel_key fuel)) m cs
EditsTo-and_then fuel o m cs (m₁, run, e, loc, size, out) =
    let (m₂, run₂, e₂, loc₂, size₂, out₂) = kernel_key-EditsTo fuel m₁ cs e in
    (
      m₂,
      rw run run₂,
      e₂,
      loc₂ ∙ loc,
      size₂ ∙ size,
      λ a o b. out₂ a o (rw (loc, size) b) ∙ out a o b,
    )

-- The keys that only are held, pressed and released.
abbrev is_held : ℕ → Bool
is_held s =
    (s == 58)
    || (s == 54)
    || (s == 182)
    || (s == 42)
    || (s == 170)
    || (s == 56)
    || (s == 184)
    || (s == 29)
    || (s == 157)
    || (s == 165)

-- The keys that are held after such a key.
abbrev hold : Keys → ℕ → Keys
hold k s =
    if s == 58
    then record k { caps_lock = not k.caps_lock }
    else if (s == 54) || (s == 182)
    then record k { right_shift = s == 54 }
    else if (s == 42) || (s == 170)
    then record k { left_shift = s == 42 }
    else if (s == 56) || (s == 184)
    then record k { alt_pressed = s == 56 }
    else if (s == 29) || (s == 157)
    then record k { left_ctrl_pressed = s == 29 }
    else record k { k_pressed = false }

ps2_kbd_isr_held :
    (fuel : ℕ) (beyond : ℕ → ℕ) (s : ℕ) (m : KeyboardState)
    → is_held s ≡ true
    → ps2_kbd_isr fuel beyond s m ≡ kernel_key fuel (record m { keys = hold m.keys s })
unfolding ps2_kbd_isr
ps2_kbd_isr_held fuel beyond s m h = ground arith

ps2_kbd_isr_other :
    (fuel : ℕ) (beyond : ℕ → ℕ) (s : ℕ) (m : KeyboardState)
    → is_held s ≡ false
    → s ≢ 28
    → s ≢ 14
    → s ≢ 37
    → ps2_kbd_isr fuel beyond s m ≡ other_key fuel beyond s m
unfolding ps2_kbd_isr
ps2_kbd_isr_other fuel beyond s m h enter back k = ground arith

-- Alt, Ctrl and the left Shift are held, so that K is the kernel's key.
abbrev pub is_kernel_key : Keys → ℕ → Bool
is_kernel_key k s = s == 37 && (k.alt_pressed && k.left_ctrl_pressed && k.left_shift)

-- The keys that give a character.
abbrev pub types : Keys → ℕ → Bool
types k s = ltb s 59 && not (is_held s) && not (is_kernel_key k s)

other_key-EditsTo :
    (fuel : ℕ) (beyond : ℕ → ℕ) (s : ℕ) (m : KeyboardState) (cs : List ℕ)
    → IsEditing m cs
    → s < 59
    → EditsTo (other_key fuel beyond s m) m (add_char m cs (char_of beyond m s))
other_key-EditsTo fuel beyond s m cs e h =
    let low : leb 0x80 s ≡ false = ground arith in
    rw low (
      EditsTo-and_then fuel (press_char fuel beyond s m) m (add_char m cs (char_of beyond m s))
        (press_char-EditsTo fuel beyond s m cs e h))

ps2_kbd_isr_pressed :
    (fuel : ℕ) (beyond : ℕ → ℕ) (m : KeyboardState)
    → ps2_kbd_isr fuel beyond 37 m ≡ (
        let with_k = record m { keys = record m.keys { k_pressed = true } } in
        if is_kernel_key m.keys 37 then kernel_key fuel with_k else other_key fuel beyond 37 with_k)
unfolding ps2_kbd_isr
ps2_kbd_isr_pressed fuel beyond m = refl

ps2_kbd_isr_k :
    (fuel : ℕ) (beyond : ℕ → ℕ) (m : KeyboardState) (cs : List ℕ)
    → IsEditing m cs
    → EditsTo
        (ps2_kbd_isr fuel beyond 37 m)
        m
        (if types m.keys 37 then add_char m cs (char_of beyond m 37) else cs)
ps2_kbd_isr_k fuel beyond m cs e =
    let k = m.keys in
    let pressed = record k { k_pressed = true } in
    let e' = IsEditing-keys m pressed cs e in
    elim (Bool-cases (k.alt_pressed && k.left_ctrl_pressed && k.left_shift)) [
      | inl kernel ↦
          rw (ps2_kbd_isr_pressed fuel beyond m, kernel)
            (kernel_key-EditsTo fuel (record m { keys = pressed }) cs e')
      | inr letter ↦
          rw (ps2_kbd_isr_pressed fuel beyond m, letter)
            (other_key-EditsTo fuel beyond 37 (record m { keys = pressed }) cs e' (omega arith))
    ]

-- While a process waits for a line, every key up to scan code 58 but Enter and Return, and every
-- release of a key, is handled: a key that gives a character appends it where the buffer has room for
-- it and a NUL, the others leave the text. No byte beside the buffer and the screen changes.
pub ps2_kbd_isr-EditsTo :
    (fuel : ℕ) (beyond : ℕ → ℕ) (s : ℕ) (m : KeyboardState) (cs : List ℕ)
    → IsEditing m cs
    → ((s < 59) ⊎ (0x80 ≤ s))
    → s ≢ 28
    → s ≢ 14
    → EditsTo
        (ps2_kbd_isr fuel beyond s m)
        m
        (if types m.keys s then add_char m cs (char_of beyond m s) else cs)
unfolding ps2_kbd_isr
ps2_kbd_isr-EditsTo fuel beyond s m cs e range enter back = elim (Bool-cases (is_held s)) [
  | inl held ↦
      let still : types m.keys s ≡ false = ground arith in
      rw (still, ps2_kbd_isr_held fuel beyond s m held)
        (kernel_key-EditsTo fuel (record m { keys = hold m.keys s }) cs
          (IsEditing-keys m (hold m.keys s) cs e))
  | inr free ↦ elim (Bool-cases (s == 37)) [
    | inl letter ↦ let here : s ≡ 37 = ground arith in rw here (ps2_kbd_isr_k fuel beyond m cs e)
    | inr other ↦
        rw (ps2_kbd_isr_other fuel beyond s m free enter back (ground arith))
          (elim (Bool-cases (ltb s 59)) [
            | inl low ↦
                let typing : types m.keys s ≡ true = ground arith in
                rw typing (other_key-EditsTo fuel beyond s m cs e (ground arith))
            | inr high ↦
                let still : types m.keys s ≡ false = ground arith in
                let up : leb 0x80 s ≡ true = ground arith in
                rw (still, up) (m, refl, e, refl, refl, λ a o b. refl)
          ])
  ]
]

-- Return takes the last character of the text away and blanks its cell, where the pointer is behind
-- the first cell and `\b` does not enter its loop over spaces.
pub ps2_kbd_isr_return :
    (fuel : ℕ) (beyond : ℕ → ℕ) (m : KeyboardState) (cs : List ℕ)
    → IsEditing m cs
    → CanGoBack m.console
    → EditsTo (ps2_kbd_isr fuel beyond 14 m) m (erase cs)
unfolding ps2_kbd_isr
ps2_kbd_isr_return fuel beyond m cs e back =
    EditsTo-and_then fuel (press_return fuel m) m (erase cs) (press_return-EditsTo fuel m cs e back)

-- Enter ends the line: the buffer of the process holds the text and a NUL, the process is ready again
-- and no other entry of the table changes.
pub ps2_kbd_isr_enter :
    (fuel : ℕ) (beyond : ℕ → ℕ) (m : KeyboardState) (cs : List ℕ)
    → IsEditing m cs
    → (m' : KeyboardState) × (ps2_kbd_isr fuel beyond 28 m ≡ some m') × Entered m cs m'
unfolding ps2_kbd_isr
ps2_kbd_isr_enter fuel beyond m cs e =
    let (m₁, run, x) = press_enter-Entered fuel m cs e in
    let (c, run₂, on, out) = kernel_key-OnScreen fuel m₁ x.on_screen in
    let hidden : (i : ℕ)
        → i < m.input.process_buffer_size
        → is_shown (m.input.process_buffer_loc + i) ≡ false =
      λ i h. ground (arith, e.apart) in
    (
      record m₁ { console = c },
      rw run run₂,
      record {
        typed =
            TypedText-same m₁.console.ram c.ram m.input.process_buffer_loc cs
              (λ a from to. out a (ground (arith, e.apart, e.room))) x.typed;
        ended = out (m.input.process_buffer_loc + length cs) (hidden (length cs) e.room) ∙ x.ended;
        waits = x.waits;
        ready = x.ready;
        others = x.others;
        on_screen = on;
      },
    )
