-- ===== src/World/Keyboard.antt =====
-- The keyboard interrupt keeps every process in its place.
use acky.Base.{
  ℕ, ◌≡◌, refl, sym, inl, inr, arith, Option, none, some, Bool, true, false, if◌then◌else◌, ◌==◌,
  ◌&&◌, ◌||◌, update, Bool-cases, Option-cases, not, sub32, add32, leb,
}
use acky.Console.{print_char, print}
use acky.Keyboard.{
  Keys, KeyboardState, put_buffer, with_char, press_enter, press_return, press_char, kernel_key,
  kernel_key_text, and_then, other_key, ps2_kbd_isr, int_ltb, scancode_to_char,
}
use acky.World.Places.{SamePlace, SamePlace-refl, SamePlace-update}

-- The result, if there is one, has the property.
abbrev pub Every {ℓ κ} : {A : Type ℓ} → (A → Type κ) → Option A → Type κ
Every P none = Unit
Every P (some a) = P a

pub Every-if {ℓ κ} :
    {A : Type ℓ} (P : A → Type κ) (c : Bool) (a b : A) → P a → P b → P (if c then a else b)
Every-if P true a b pa pb = pa
Every-if P false a b pa pb = pb

pub Every-some {ℓ κ} :
    {A : Type ℓ} (P : A → Type κ) (o : Option A) (a : A) → Every P o → o ≡ some a → P a
Every-some P none a h e = absurd (ground arith)
Every-some P (some b) a h e = let same : b ≡ a = ground arith in rw (sym same) h

-- The processes of the second state stand where those of the first do.
abbrev pub Stays : KeyboardState → KeyboardState → Type 0
Stays m m' = (j : ℕ) → SamePlace (m.processes j) (m'.processes j)

stays : (m : KeyboardState) → Stays m m
stays m j = SamePlace-refl (m.processes j)

Every-and_then :
    (m : KeyboardState) (o : Option KeyboardState) (f : KeyboardState → Option KeyboardState)
    → Every (Stays m) o
    → ((n : KeyboardState) → Stays m n → Every (Stays m) (f n))
    → Every (Stays m) (and_then o f)
Every-and_then m none f h k = tt
Every-and_then m (some n) f h k = k n h

with_char-Stays :
    (fuel : ℕ) (m n : KeyboardState) (ch : ℕ) → Stays m n → Every (Stays m) (with_char fuel n ch)
with_char-Stays fuel m n ch h = elim (Option-cases (print_char fuel n.console ch)) [
  | inl runs ↦ let e : with_char fuel n ch ≡ none = rw (with_char, runs) refl in rw e tt
  | inr (c, printed) ↦
      let e : with_char fuel n ch ≡ some (record n { console = c }) =
        rw (with_char, printed) refl in
      rw e h
]

kernel_key-Stays :
    (fuel : ℕ) (m n : KeyboardState) → Stays m n → Every (Stays m) (kernel_key fuel n)
unfolding kernel_key
kernel_key-Stays fuel m n h =
    let k = n.keys in
    let held = k.k_pressed && k.alt_pressed && k.left_ctrl_pressed && k.left_shift in
    elim (Bool-cases held) [
      | inr off ↦ rw (kernel_key, off) h
      | inl on ↦ elim (Option-cases (print fuel n.console kernel_key_text)) [
        | inl runs ↦ rw (kernel_key, on, runs) tt
        | inr (c, printed) ↦ rw (kernel_key, on, printed) h
      ]
    ]

entered : KeyboardState → KeyboardState
entered m = record m {
  input = record m.input {
    process_waiting_for_input = false;
    process_buffer_pos = 0;
    process_buffer_size = 0;
  };
  processes =
      update m.processes m.input.input_wainting_pid
        (record (m.processes m.input.input_wainting_pid) { waiting = false });
  console = put_buffer m m.input.process_buffer_pos 0;
}

press_enter-Stays : (fuel : ℕ) (m : KeyboardState) → Every (Stays m) (press_enter fuel m)
unfolding press_enter entered
press_enter-Stays fuel m = elim (Bool-cases m.input.process_waiting_for_input) [
  | inr idle ↦ rw (press_enter, idle) (stays m)
  | inl waits ↦
      let p = m.processes m.input.input_wainting_pid in
      let ready = λ (j : ℕ).
        SamePlace-update m.processes m.input.input_wainting_pid j (record p { waiting = false })
          (record { start = refl; size = refl; queue = λ h. h }) in
      rw (press_enter, waits) (with_char-Stays fuel m (entered m) b'\n' ready)
]

press_return-Stays : (fuel : ℕ) (m : KeyboardState) → Every (Stays m) (press_return fuel m)
unfolding press_return
press_return-Stays fuel m =
    let pos = sub32 m.input.process_buffer_pos 1 in
    let erased = record m {
      input = record m.input { process_buffer_pos = pos };
      console = put_buffer m pos 0;
    } in
    Every-if (Every (Stays m))
      (int_ltb 0 m.input.process_buffer_pos && m.input.process_waiting_for_input)
      (with_char fuel erased 8) (some m) (with_char-Stays fuel m erased 8 (stays m)) (stays m)

press_char-Stays :
    (fuel : ℕ) (beyond : ℕ → ℕ) (scan_code : ℕ) (m n : KeyboardState)
    → Stays m n
    → Every (Stays m) (press_char fuel beyond scan_code n)
unfolding press_char
press_char-Stays fuel beyond scan_code m n h =
    let k = n.keys in
    let c =
      scancode_to_char beyond k.layout scan_code (k.caps_lock || k.left_shift || k.right_shift) in
    let typed = record n {
      input = record n.input { process_buffer_pos = add32 n.input.process_buffer_pos 1 };
      console = put_buffer n n.input.process_buffer_pos c;
    } in
    Every-if (Every (Stays m))
      (n.input.process_waiting_for_input
        && int_ltb n.input.process_buffer_pos (sub32 n.input.process_buffer_size 1))
      (with_char fuel typed c) (some n) (with_char-Stays fuel m typed c h) h

other_key-Stays :
    (fuel : ℕ) (beyond : ℕ → ℕ) (scan_code : ℕ) (m n : KeyboardState)
    → Stays m n
    → Every (Stays m) (other_key fuel beyond scan_code n)
other_key-Stays fuel beyond scan_code m n h =
    let pressed = press_char fuel beyond scan_code n in
    Every-if (Every (Stays m)) (leb 0x80 scan_code) (some n) (and_then pressed (kernel_key fuel)) h
      (Every-and_then m pressed (kernel_key fuel) (press_char-Stays fuel beyond scan_code m n h)
        (kernel_key-Stays fuel m))

-- Whatever key is pressed or released, every process of the table stays in its place.
pub ps2_kbd_isr-Stays :
    (fuel : ℕ) (beyond : ℕ → ℕ) (scan_code : ℕ) (m : KeyboardState)
    → Every (Stays m) (ps2_kbd_isr fuel beyond scan_code m)
unfolding ps2_kbd_isr
ps2_kbd_isr-Stays fuel beyond scan_code m =
    let k = m.keys in
    let P = Every (Stays m) in
    let with_k = record m { keys = record k { k_pressed = true } } in
    let held = λ (keys : Keys). kernel_key-Stays fuel m (record m { keys = keys }) (stays m) in
    let other =
      λ (n : KeyboardState) (h : Stays m n). other_key-Stays fuel beyond scan_code m n h in
    let enter =
      Every-and_then m (press_enter fuel m) (kernel_key fuel) (press_enter-Stays fuel m)
        (kernel_key-Stays fuel m) in
    let erase =
      Every-and_then m (press_return fuel m) (kernel_key fuel) (press_return-Stays fuel m)
        (kernel_key-Stays fuel m) in
    Every-if P (scan_code == 28) _ _ enter (
      Every-if P (scan_code == 58) _ _ (held (record k { caps_lock = not k.caps_lock })) (
        Every-if P (scan_code == 54) _ _ (held (record k { right_shift = true })) (
          Every-if P (scan_code == 182) _ _ (held (record k { right_shift = false })) (
            Every-if P (scan_code == 42) _ _ (held (record k { left_shift = true })) (
              Every-if P (scan_code == 170) _ _ (held (record k { left_shift = false })) (
                Every-if P (scan_code == 14) _ _ erase (
                  Every-if P (scan_code == 56) _ _ (held (record k { alt_pressed = true })) (
                    Every-if P (scan_code == 184) _ _ (held (record k { alt_pressed = false })) (
                      Every-if P (scan_code == 29) _ _
                        (held (record k { left_ctrl_pressed = true }))
                        (Every-if P (scan_code == 157) _ _
                          (held (record k { left_ctrl_pressed = false }))
                          (Every-if P (scan_code == 165) _ _ (held (record k { k_pressed = false }))
                            (Every-if P (scan_code == 37) _ _
                              (Every-if P (k.alt_pressed && k.left_ctrl_pressed && k.left_shift) _ _
                                (kernel_key-Stays fuel m with_k (stays m)) (other with_k (stays m)))
                              (other m (stays m))))))))))))))
