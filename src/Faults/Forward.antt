-- ===== src/Faults/Forward.antt =====
-- What the handlers print holds no backspace.
use acky.Base.{
  ℕ, zero, suc, get_elem?, ◌+◌, ◌-◌, ◌/◌, ◌%◌, ◌≡◌, ◌≢◌, refl, arith, if◌then◌else◌, ◌==◌, ltb,
  update, Bool-cases, inl, inr, some, Bool, true, false, List, [], ◌∷◌, ◌++◌,
}
use acky.Decimal.Text.{int_text}
use acky.Decimal.{int_to_str, put_digits, reverse_cells}
use acky.Fs.{text_at}
use acky.Idt.{Handler}
use acky.Pit.{Frame}
use acky.Faults.Report.{Stack, report_text, frame_text, message}

-- No byte of the text is a backspace.
abbrev pub is_forward : List ℕ → Bool
is_forward [] = true
is_forward (c ∷ cs) = if c == 8 then false else is_forward cs

abbrev pub IsForward : List ℕ → Type 0
IsForward str = is_forward str ≡ true

pub is_forward-++ :
    (a b : List ℕ) → is_forward (a ++ b) ≡ (if is_forward a then is_forward b else false)
is_forward-++ [] b = refl
is_forward-++ (c ∷ cs) b = elim (Bool-cases (c == 8)) [
  | inl back ↦ rw back refl
  | inr other ↦ rw other (is_forward-++ cs b)
]

pub at-IsForward : (str : List ℕ) → IsForward str → (i ch : ℕ) → get_elem? str i ≡ some ch → ch ≢ 8
at-IsForward [] h i ch e = absurd (ground arith)
at-IsForward (c ∷ cs) h zero ch e = ground arith
at-IsForward (c ∷ cs) h (suc i) ch e = at-IsForward cs (ground arith) i ch e

digits_forward :
    (fuel num i : ℕ) (str : ℕ → ℕ)
    → ((j : ℕ) → str j ≢ 8)
    → (j : ℕ) → (put_digits fuel num i str).0 j ≢ 8
unfolding put_digits
digits_forward zero num i str h j = h j
digits_forward (suc fuel) num i str h j =
    let next = update str i (num % 10 + b'0') in
    let rest = digits_forward fuel (num / 10) (i + 1) next (λ k. ground (arith, h k)) j in
    elim (Bool-cases (num == 0)) [ inl over ↦ rw over (h j) | inr more ↦ rw more rest ]

reverse_forward :
    (fuel start end : ℕ) (str : ℕ → ℕ)
    → ((j : ℕ) → str j ≢ 8)
    → (j : ℕ) → reverse_cells fuel start end str j ≢ 8
unfolding reverse_cells
reverse_forward zero start end str h j = h j
reverse_forward (suc fuel) start end str h j =
    let next = update (update str start (str end)) end (str start) in
    let rest =
      reverse_forward fuel (start + 1) (end - 1) next (λ k. ground (arith, h k, h start, h end))
        j in
    elim (Bool-cases (ltb start end)) [ inl more ↦ rw more rest | inr over ↦ rw over (h j) ]

int_to_str_forward : (num j : ℕ) → int_to_str num (λ i. 0) j ≢ 8
unfolding int_to_str
int_to_str_forward num j =
    let (digits, i) = put_digits 10 num 0 (λ k. 0) in
    let put = digits_forward 10 num 0 (λ k. 0) (λ k e. absurd (ground arith)) in
    elim (Bool-cases (num == 0)) [
      | inl nought ↦ ground arith
      | inr more ↦ rw more (
          reverse_forward i 0 (i - 1) (update digits i 0) (λ k e. absurd (ground (arith, put k))) j)
    ]

text_at-IsForward : (b : ℕ → ℕ) (at n : ℕ) → ((j : ℕ) → b j ≢ 8) → IsForward (text_at b at n)
text_at-IsForward b at zero h = refl
text_at-IsForward b at (suc n) h = elim (Bool-cases (b at == 0)) [
  | inl end ↦ rw end refl
  | inr more ↦
      let other : (b at == 8) ≡ false = ground (arith, h at) in
      rw (more, other) (text_at-IsForward b (at + 1) n h)
]

int_text-IsForward : (n : ℕ) → IsForward (int_text n)
unfolding int_text
int_text-IsForward n = text_at-IsForward (int_to_str n (λ i. 0)) 0 11 (int_to_str_forward n)

report_text-IsForward :
    (str : List ℕ) (esp : Stack) → IsForward str → IsForward (report_text str esp)
unfolding report_text
report_text-IsForward str esp h = simp (is_forward-++, int_text-IsForward, h) refl

frame_text-IsForward : (f : Frame) → IsForward (frame_text f)
unfolding frame_text
frame_text-IsForward f = simp (is_forward-++, int_text-IsForward) refl

pub report-IsForward :
    (str : List ℕ) (esp : Stack) (f : Frame)
    → IsForward str
    → IsForward (report_text str esp ++ frame_text f)
report-IsForward str esp f h =
    simp (is_forward-++, report_text-IsForward str esp h, frame_text-IsForward f) refl

pub message-IsForward : (h : Handler) → IsForward (message h)
unfolding message
message-IsForward Handler.divid_err = refl
message-IsForward Handler.debug_err = refl
message-IsForward Handler.nm_int_err = refl
message-IsForward Handler.break_err = refl
message-IsForward Handler.overflow_err = refl
message-IsForward Handler.bounds_check_err = refl
message-IsForward Handler.invalid_opcode_err = refl
message-IsForward Handler.dev_not_avail_err = refl
message-IsForward Handler.double_fault_err = refl
message-IsForward Handler.coproc_seg_overrun_err = refl
message-IsForward Handler.invalid_tss_err = refl
message-IsForward Handler.seg_not_present_err = refl
message-IsForward Handler.stack_fault_err = refl
message-IsForward Handler.gen_prot_fault_err = refl
message-IsForward Handler.page_fault_err = refl
message-IsForward Handler.reserved_err = refl
message-IsForward Handler.fpu_err = refl
message-IsForward Handler.align_check_err = refl
message-IsForward Handler.machine_check_err = refl
message-IsForward Handler.simd_err = refl
message-IsForward Handler.ps2_kbd_isr = refl
message-IsForward Handler.pit_isr = refl
message-IsForward Handler.irq7 = refl
message-IsForward Handler.ps2_mouse_isr = refl
message-IsForward Handler.sys_call = refl
