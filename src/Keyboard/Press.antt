-- ===== src/Keyboard/Press.antt =====
-- What the keys that change the line do to it.
use acky.Base.{
  ℕ, suc, ◌+◌, ◌-◌, ◌/◌, ◌%◌, ◌<◌, ◌≡◌, ◌≢◌, ◌⊎◌, refl, arith, if◌then◌else◌, ltb, update, add32,
  sub32, some, true, false, ◌&&◌, ◌||◌, List, [], ◌∷◌, length, inl, inr, Bool-cases, ◌∙◌,
}
use acky.Console.{Console, video_mem_addr}
use acky.Console.Cells.{OnScreen, is_shown, print_char-Printed}
use acky.Console.Erase.{print_char_back-Printed}
use acky.Keyboard.{
  int_ltb, KeyboardState, scancode_to_char, put_buffer, with_char, press_enter, press_return,
  press_char,
}
use acky.Keyboard.Chars.{scancode_to_char_plain}
use acky.Keyboard.Line.{
  TypedText, TypedText-same, IsEditing, EditsTo, IsEditing-console, with_char-EditsTo, written,
}

-- The text after a character: it is taken while a byte is left for the NUL.
abbrev pub add_char : KeyboardState → List ℕ → ℕ → List ℕ
add_char m cs c = if ltb (suc (length cs)) m.input.process_buffer_size then c ∷ cs else cs

-- The character of a key for the keys that are held.
abbrev pub char_of : (ℕ → ℕ) → KeyboardState → ℕ → ℕ
char_of beyond m scan_code =
    let k = m.keys in
    scancode_to_char beyond k.layout scan_code (k.caps_lock || k.left_shift || k.right_shift)

pub press_char-EditsTo :
    (fuel : ℕ) (beyond : ℕ → ℕ) (scan_code : ℕ) (m : KeyboardState) (cs : List ℕ)
    → IsEditing m cs
    → scan_code < 59
    → EditsTo (press_char fuel beyond scan_code m) m (add_char m cs (char_of beyond m scan_code))
unfolding press_char
press_char-EditsTo fuel beyond scan_code m cs e h =
    let ch = char_of beyond m scan_code in
    elim (Bool-cases (ltb (suc (length cs)) m.input.process_buffer_size)) [
      | inl more ↦
          let open_ : (m.input.process_waiting_for_input
                && int_ltb m.input.process_buffer_pos (sub32 m.input.process_buffer_size 1))
              ≡ true =
            ground (arith, e.waits, e.position, e.small) in
          let pos = m.input.process_buffer_pos in
          let m₁ : KeyboardState = record m {
            input = record m.input { process_buffer_pos = add32 pos 1 };
            console = put_buffer m pos ch;
          } in
          let (away, here, kept) = written m cs pos ch e (ground (arith, e.position, e.room)) in
          let e₁ : IsEditing m₁ (ch ∷ cs) = record {
            waits = e.waits;
            position = omega (arith, e.position, e.room, e.small);
            room = ground arith;
            small = e.small;
            bounded = e.bounded;
            apart = e.apart;
            typed = (rw (← e.position) here, kept cs (omega (arith, e.position)) e.typed);
            on_screen = record {
              from = e.on_screen.from;
              to = e.on_screen.to;
              even = e.on_screen.even;
            };
          } in
          let (m', run, e', loc, size, out) = with_char-EditsTo fuel m₁ (ch ∷ cs) ch e₁ (
            scancode_to_char_plain beyond m.keys.layout scan_code
              (m.keys.caps_lock || m.keys.left_shift || m.keys.right_shift) h) in
          rw (open_, more) (m', run, e', loc, size, λ a o b. out a o b ∙ away a b)
      | inr full ↦
          let closed : (m.input.process_waiting_for_input
                && int_ltb m.input.process_buffer_pos (sub32 m.input.process_buffer_size 1))
              ≡ false =
            ground (arith, e.waits, e.position, e.small, e.room) in
          rw (closed, full) (m, refl, e, refl, refl, λ a out away. refl)
    ]

-- The pointer is behind the first cell, and `\b` does not enter its loop over spaces.
abbrev pub CanGoBack : Console → Type 0
CanGoBack c =
    (c.video_mem ≢ video_mem_addr) × ((c.ram (c.video_mem - 2) ≢ b' ') ⊎ (c.video_mem / 2 % 80 ≢ 0))

-- The text without its last character.
abbrev pub erase : List ℕ → List ℕ
erase [] = []
erase (c ∷ cs) = cs

pub press_return-EditsTo :
    (fuel : ℕ) (m : KeyboardState) (cs : List ℕ)
    → IsEditing m cs
    → CanGoBack m.console
    → EditsTo (press_return fuel m) m (erase cs)
unfolding press_return
press_return-EditsTo fuel m [] e back =
    let closed : (int_ltb 0 m.input.process_buffer_pos && m.input.process_waiting_for_input)
        ≡ false =
      ground (arith, e.position) in
    rw closed (m, refl, e, refl, refl, λ a out away. refl)
press_return-EditsTo fuel m (ch ∷ cs) e (inner, test) =
    let pos = sub32 m.input.process_buffer_pos 1 in
    let before : pos ≡ length cs = omega (arith, e.position, e.room, e.small) in
    let open_ : (int_ltb 0 m.input.process_buffer_pos && m.input.process_waiting_for_input) ≡ true =
      ground (arith, e.position, e.waits, e.room, e.small) in
    let m₁ : KeyboardState = record m {
      input = record m.input { process_buffer_pos = pos };
      console = put_buffer m pos 0;
    } in
    let (away, here, kept) = written m (ch ∷ cs) pos 0 e (omega (arith, e.room, before)) in
    let e₁ : IsEditing m₁ cs = record {
      waits = e.waits;
      position = before;
      room = omega (arith, e.room);
      small = e.small;
      bounded = e.bounded;
      apart = e.apart;
      typed = kept cs (omega (arith, before)) e.typed.1;
      on_screen = record { from = e.on_screen.from; to = e.on_screen.to; even = e.on_screen.even };
    } in
    let same : (put_buffer m pos 0).ram (m.console.video_mem - 2)
        ≡ m.console.ram (m.console.video_mem - 2) =
      away (m.console.video_mem - 2)
        (omega (arith, e.apart, e.on_screen.from, e.on_screen.to, e.on_screen.even, inner)) in
    let (c, run, p) = print_char_back-Printed fuel m₁.console e₁.on_screen inner (rw same test) in
    let done : with_char fuel m₁ 8 ≡ some (record m₁ { console = c }) = rw (with_char, run) refl in
    rw open_ (
      record m₁ { console = c },
      done,
      IsEditing-console m₁ cs c e₁ p.on_screen p.outside,
      refl,
      refl,
      λ a o b. p.outside a o ∙ away a b,
    )

-- What Enter leaves: the text with its NUL, no line that is waited for, and the process ready.
pub record Entered (m : KeyboardState) (cs : List ℕ) (m' : KeyboardState) : Type 0 where
  pub typed : TypedText m'.console.ram m.input.process_buffer_loc cs
  pub ended : m'.console.ram (m.input.process_buffer_loc + length cs) ≡ 0
  pub waits : m'.input.process_waiting_for_input ≡ false
  pub ready : (m'.processes m.input.input_wainting_pid).waiting ≡ false
  pub others : (j : ℕ) → j ≢ m.input.input_wainting_pid → m'.processes j ≡ m.processes j
  pub on_screen : OnScreen m'.console

pub press_enter-Entered :
    (fuel : ℕ) (m : KeyboardState) (cs : List ℕ)
    → IsEditing m cs
    → (m' : KeyboardState) × (press_enter fuel m ≡ some m') × Entered m cs m'
unfolding press_enter
press_enter-Entered fuel m cs e =
    let pos = m.input.process_buffer_pos in
    let who = m.input.input_wainting_pid in
    let m₁ : KeyboardState = record m {
      input = record m.input {
        process_waiting_for_input = false;
        process_buffer_pos = 0;
        process_buffer_size = 0;
      };
      processes = update m.processes who (record (m.processes who) { waiting = false });
      console = put_buffer m pos 0;
    } in
    let (away, here, kept) = written m cs pos 0 e (omega (arith, e.position, e.room)) in
    let on : OnScreen m₁.console = record {
      from = e.on_screen.from;
      to = e.on_screen.to;
      even = e.on_screen.even;
    } in
    let (c, run, p) = print_char-Printed fuel m₁.console b'\n' on (omega arith) in
    let done : with_char fuel m₁ b'\n' ≡ some (record m₁ { console = c }) =
      rw (with_char, run) refl in
    let hidden : (i : ℕ)
        → i < m.input.process_buffer_size
        → is_shown (m.input.process_buffer_loc + i) ≡ false =
      λ i h. ground (arith, e.apart) in
    rw e.waits (
      record m₁ { console = c },
      done,
      record {
        typed =
            TypedText-same m₁.console.ram c.ram m.input.process_buffer_loc cs
              (λ a from to. p.outside a (ground (arith, e.apart, e.room)))
              (kept cs (omega (arith, e.position)) e.typed);
        ended =
            p.outside (m.input.process_buffer_loc + length cs) (hidden (length cs) e.room)
            ∙ rw (← e.position) here;
        waits = refl;
        ready = ground arith;
        others = λ j ne. ground arith;
        on_screen = p.on_screen;
      },
    )
