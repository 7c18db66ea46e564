-- ===== src/Keyboard/Line.antt =====
-- The line that a process reads, key by key. The text so far is a list, its last character first.
use acky.Base.{
  ℕ, ◌+◌, ◌≤◌, ◌<◌, ◌≡◌, ◌≢◌, ◌⊎◌, refl, u32, arith, add32, Option, some, true, false, ◌&&◌, List,
  [], ◌∷◌, length, inl, inr, Bool-cases, ◌∙◌,
}
use acky.Ram.{Ram}
use acky.Console.{Console, video_mem_addr, screen_bytes}
use acky.Console.Cells.{OnScreen, is_shown, print_char-Printed, print-OnScreen}
use acky.Keyboard.{KeyboardState, put_buffer, with_char, kernel_key, kernel_key_text}
use acky.Keyboard.Chars.{is_plain-get_elem?}

-- The characters stand from `p` on, the last of them first in the list.
abbrev pub TypedText : Ram → ℕ → List ℕ → Type 0
TypedText m p [] = Unit
TypedText m p (c ∷ cs) = (m (p + length cs) ≡ c) × TypedText m p cs

pub TypedText-same :
    (m m' : Ram) (p : ℕ) (cs : List ℕ)
    → ((a : ℕ) → p ≤ a → a < p + length cs → m' a ≡ m a)
    → TypedText m p cs
    → TypedText m' p cs
TypedText-same m m' p [] same h = h
TypedText-same m m' p (c ∷ cs) same (e, h) = (
  same (p + length cs) (omega arith) (omega arith) ∙ e,
  TypedText-same m m' p cs (λ a from to. same a from (omega arith)) h,
)

-- A process waits for a line, `cs` is what was typed so far, and its buffer lies beside the screen.
pub record IsEditing (m : KeyboardState) (cs : List ℕ) : Type 0 where
  pub waits : m.input.process_waiting_for_input ≡ true
  pub position : m.input.process_buffer_pos ≡ length cs
  pub room : length cs < m.input.process_buffer_size
  pub small : m.input.process_buffer_size < 0x80000000
  pub bounded : m.input.process_buffer_loc + m.input.process_buffer_size < u32
  pub apart :
      (m.input.process_buffer_loc + m.input.process_buffer_size ≤ video_mem_addr)
      ⊎ (video_mem_addr + screen_bytes ≤ m.input.process_buffer_loc)
  pub typed : TypedText m.console.ram m.input.process_buffer_loc cs
  pub on_screen : OnScreen m.console

-- The handler ends, and the text is then `cs`.
abbrev pub EditsTo : Option KeyboardState → KeyboardState → List ℕ → Type 0
EditsTo o m cs =
    (m' : KeyboardState) × (o ≡ some m')
    × IsEditing m' cs
    × (m'.input.process_buffer_loc ≡ m.input.process_buffer_loc)
    × (m'.input.process_buffer_size ≡ m.input.process_buffer_size)
    × ((a : ℕ)
        → is_shown a ≡ false
        → ((a < m.input.process_buffer_loc)
            ⊎ (m.input.process_buffer_loc + m.input.process_buffer_size ≤ a))
        → m'.console.ram a ≡ m.console.ram a)

-- What another console shows does not touch the text.
pub IsEditing-console :
    (m : KeyboardState) (cs : List ℕ) (c : Console)
    → IsEditing m cs
    → OnScreen c
    → ((a : ℕ) → is_shown a ≡ false → c.ram a ≡ m.console.ram a)
    → IsEditing (record m { console = c }) cs
IsEditing-console m cs c e on same = record {
  waits = e.waits;
  position = e.position;
  room = e.room;
  small = e.small;
  bounded = e.bounded;
  apart = e.apart;
  typed =
      TypedText-same m.console.ram c.ram m.input.process_buffer_loc cs
        (λ a from to. same a (ground (arith, e.apart, e.room))) e.typed;
  on_screen = on;
}

pub kernel_key-OnScreen :
    (fuel : ℕ) (m : KeyboardState)
    → OnScreen m.console
    → (c : Console) × (kernel_key fuel m ≡ some (record m { console = c }))
      × OnScreen c
      × ((a : ℕ) → is_shown a ≡ false → c.ram a ≡ m.console.ram a)
unfolding kernel_key
kernel_key-OnScreen fuel m o =
    let k = m.keys in
    elim (Bool-cases (k.k_pressed && k.alt_pressed && k.left_ctrl_pressed && k.left_shift)) [
      | inl held ↦
          let (c, run, on, outside) =
            print-OnScreen fuel kernel_key_text m.console o
              (λ i ch at. is_plain-get_elem? kernel_key_text i ch refl at) in
          (c, ground arith, on, outside)
      | inr free ↦ (m.console, ground arith, o, λ a out. refl)
    ]

pub kernel_key-EditsTo :
    (fuel : ℕ) (m : KeyboardState) (cs : List ℕ) → IsEditing m cs → EditsTo (kernel_key fuel m) m cs
kernel_key-EditsTo fuel m cs e =
    let (c, run, on, outside) = kernel_key-OnScreen fuel m e.on_screen in
    (
      record m { console = c },
      run,
      IsEditing-console m cs c e on outside,
      refl,
      refl,
      λ a out away. outside a out,
    )

pub with_char-EditsTo :
    (fuel : ℕ) (m : KeyboardState) (cs : List ℕ) (ch : ℕ)
    → IsEditing m cs
    → ch ≢ 8
    → EditsTo (with_char fuel m ch) m cs
with_char-EditsTo fuel m cs ch e plain =
    let (c, run, p) = print_char-Printed fuel m.console ch e.on_screen plain in
    (
      record m { console = c },
      rw (with_char, run) refl,
      IsEditing-console m cs c e p.on_screen p.outside,
      refl,
      refl,
      λ a out away. p.outside a out,
    )

-- A byte that is written into the buffer behind the text.
pub written :
    (m : KeyboardState) (cs : List ℕ) (i v : ℕ)
    → IsEditing m cs
    → i < m.input.process_buffer_size
    → ((a : ℕ)
        → ((a < m.input.process_buffer_loc)
            ⊎ (m.input.process_buffer_loc + m.input.process_buffer_size ≤ a))
        → (put_buffer m i v).ram a ≡ m.console.ram a)
      × ((put_buffer m i v).ram (m.input.process_buffer_loc + i) ≡ v)
      × ((ds : List ℕ)
          → length ds ≤ i
          → TypedText m.console.ram m.input.process_buffer_loc ds
          → TypedText (put_buffer m i v).ram m.input.process_buffer_loc ds)
written m cs i v e h =
    let at : add32 m.input.process_buffer_loc i ≡ m.input.process_buffer_loc + i =
      omega (arith, e.bounded) in
    (
      λ a away. ground arith,
      ground arith,
      λ ds short t.
          TypedText-same m.console.ram (put_buffer m i v).ram m.input.process_buffer_loc ds
            (λ a from to. ground arith) t,
    )
