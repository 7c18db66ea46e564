-- ===== src/Idt/Gates.antt =====
-- What the processor finds in the interrupt table, and who may use it.
use acky.Base.{
  ℕ, zero, suc, ◌+◌, ◌*◌, ◌/◌, ◌%◌, ◌^◌, ◌≤◌, ◌<◌, ◌≡◌, ◌≢◌, ◌⊎◌, refl, u32, arith, if◌then◌else◌,
  ◌==◌, true, false, List, [], ◌∷◌, length, Bool-cases, ◌∙◌, inl, inr, ltb,
}
use acky.Idt.{Gate, Handler, set_idt_gate, set_reserved, set_exceptions, init_idt, exceptions}

-- The handler's address as the processor puts it together.
abbrev pub offset_of : Gate → ℕ
offset_of g = g.offset_low + g.offset_high * 2 ^ 16

-- The least privileged ring that may call the gate by an `int` instruction.
abbrev pub dpl_of : Gate → ℕ
dpl_of g = g.flags / 32 % 4

-- Entry `i` of a list of handlers.
abbrev pub nth : List Handler → ℕ → Handler
nth [] i = Handler.reserved_err
nth (h ∷ hs) zero = h
nth (h ∷ hs) (suc i) = nth hs i

-- What `installed` says of a gate: its handler and its flags.
pub record Installed (g : Gate) (address : ℕ) (flags : ℕ) : Type 0 where
  pub offset : offset_of g ≡ address
  pub code_segment : g.selector ≡ 0x08
  pub flags_read : g.flags ≡ flags

set_idt_gate-here :
    (idt : ℕ → Gate) (v address selector flags : ℕ)
    → address < u32
    → selector ≡ 0x08
    → Installed (set_idt_gate idt v address selector flags v) address flags
unfolding set_idt_gate
set_idt_gate-here idt v address selector flags h code =
    let here : (v == v) ≡ true = ground arith in
    rw here (record { offset = omega arith; code_segment = code; flags_read = refl })

set_idt_gate-away :
    (idt : ℕ → Gate) (i v address selector flags : ℕ)
    → (i == v) ≡ false
    → set_idt_gate idt i address selector flags v ≡ idt v
unfolding set_idt_gate
set_idt_gate-away idt i v address selector flags away = rw away

-- A gate that the loop leaves alone, and one that it sets.
set_exceptions-away :
    (address : Handler → ℕ) (idt : ℕ → Gate) (i : ℕ) (hs : List Handler) (v : ℕ)
    → ((v < i) ⊎ (i + length hs ≤ v))
    → set_exceptions address idt i hs v ≡ idt v
unfolding set_exceptions
set_exceptions-away address idt i [] v out = refl
set_exceptions-away address idt i (h ∷ hs) v out =
    ground
      (arith, set_exceptions-away address (set_idt_gate idt i (address h) 0x08 0x8F) (i + 1) hs v)

set_exceptions-Installed :
    (address : Handler → ℕ) (idt : ℕ → Gate) (i : ℕ) (hs : List Handler) (d v : ℕ)
    → ((h : Handler) → address h < u32)
    → d < length hs
    → i + d ≡ v
    → Installed (set_exceptions address idt i hs v) (address (nth hs d)) 0x8F
unfolding set_exceptions
set_exceptions-Installed address idt i [] d v small h at = absurd (omega arith)
set_exceptions-Installed address idt i (x ∷ xs) zero v small h at =
    let first = set_idt_gate idt i (address x) 0x08 0x8F in
    let e : i ≡ v = omega arith in
    rw (set_exceptions-away address first (i + 1) xs v (inl (omega arith)))
      (rw (← e) (set_idt_gate-here idt i (address x) 0x08 0x8F (small x) refl))
set_exceptions-Installed address idt i (x ∷ xs) (suc d) v small h at =
    set_exceptions-Installed address (set_idt_gate idt i (address x) 0x08 0x8F) (i + 1) xs d v small
      (omega arith) (omega arith)

set_reserved-away :
    (address : Handler → ℕ) (idt : ℕ → Gate) (i left v : ℕ)
    → ((v < i) ⊎ (i + left ≤ v))
    → set_reserved address idt i left v ≡ idt v
unfolding set_reserved
set_reserved-away address idt i zero v out = refl
set_reserved-away address idt i (suc left) v out = ground (
  arith,
  set_reserved-away address (set_idt_gate idt i (address Handler.reserved_err) 0x08 0x8F) (i + 1)
      left v,
)

set_reserved-Installed :
    (address : Handler → ℕ) (idt : ℕ → Gate) (i left v : ℕ)
    → ((h : Handler) → address h < u32)
    → i ≤ v
    → v < i + left
    → Installed (set_reserved address idt i left v) (address Handler.reserved_err) 0x8F
unfolding set_reserved
set_reserved-Installed address idt i zero v small a b = absurd (omega arith)
set_reserved-Installed address idt i (suc left) v small a b =
    let one = set_idt_gate idt i (address Handler.reserved_err) 0x08 0x8F in
    elim (Bool-cases (i == v)) [
      | inl here ↦
          let e : i ≡ v = ground arith in
          rw (set_reserved-away address one (i + 1) left v (inl (omega arith))) (
            rw (← e) (
              set_idt_gate-here idt i (address Handler.reserved_err) 0x08 0x8F
                (small Handler.reserved_err) refl))
      | inr there ↦
          set_reserved-Installed address one (i + 1) left v small (ground arith) (omega arith)
    ]

-- The table in front of the device gates.
abbrev exception_gates : (Handler → ℕ) → (ℕ → Gate) → ℕ → Gate
exception_gates address idt = set_reserved address (set_exceptions address idt 0 exceptions) 20 12

-- What `setIDTGate` writes.
abbrev gate : ℕ → ℕ → Gate
gate address flags = record {
  offset_low = address % 2 ^ 16;
  selector = 0x08;
  zero_byte = 0;
  flags = flags;
  offset_high = address / 2 ^ 16 % 2 ^ 16;
}

init_idt_lem :
    (address : Handler → ℕ) (idt : ℕ → Gate) (v : ℕ)
    → init_idt address idt v ≡ (
        if 0x40 == v
        then gate (address Handler.sys_call) 0xEE
        else if 0x2C == v
        then gate (address Handler.ps2_mouse_isr) 0x8E
        else if 0x27 == v
        then gate (address Handler.irq7) 0xEE
        else if 0x20 == v
        then gate (address Handler.pit_isr) 0x8E
        else if 0x21 == v
        then gate (address Handler.ps2_kbd_isr) 0x8E
        else exception_gates address idt v)
unfolding init_idt set_idt_gate
init_idt_lem address idt v = refl

-- After `initIDT` each of the vectors 0 to 19 leads to its exception handler and each of 20 to 31
-- to the reserved one, all through gates that user code cannot call.
pub init_idt-exceptions :
    (address : Handler → ℕ) (idt : ℕ → Gate) (v : ℕ)
    → ((h : Handler) → address h < u32)
    → v < 32
    → Installed
        (init_idt address idt v)
        (address (if ltb v 20 then nth exceptions v else Handler.reserved_err))
        0x8F
      × (dpl_of (init_idt address idt v) ≡ 0)
init_idt-exceptions address idt v small h =
    let low : init_idt address idt v ≡ exception_gates address idt v =
      ground (arith, init_idt_lem address idt v) in
    let installed : Installed (exception_gates address idt v)
        (address (if ltb v 20 then nth exceptions v else Handler.reserved_err)) 0x8F =
      elim (Bool-cases (ltb v 20)) [
        | inl known ↦
            rw
              (
                known,
                set_reserved-away address (set_exceptions address idt 0 exceptions) 20 12 v
                    (inl (ground arith)),
              )
              (set_exceptions-Installed address idt 0 exceptions v v small (ground arith)
                (omega arith))
        | inr other ↦ rw other (
            set_reserved-Installed address (set_exceptions address idt 0 exceptions) 20 12 v small
              (ground arith) (omega arith))
      ] in
    rw low (installed, omega (arith, installed.flags_read))

-- Where no gate of a vector from 32 on was open to user code before, the only vectors that user code
-- may call after `initIDT` are those of the system call and of the spurious IRQ 7.
pub init_idt_user_gates :
    (address : Handler → ℕ) (idt : ℕ → Gate) (v : ℕ)
    → ((h : Handler) → address h < u32)
    → ((w : ℕ) → 32 ≤ w → dpl_of (idt w) ≢ 3)
    → dpl_of (init_idt address idt v) ≡ 3
    → (v ≡ 0x40) ⊎ (v ≡ 0x27)
init_idt_user_gates address idt v small closed user = elim (Bool-cases (ltb v 32)) [
  | inl low ↦
      let (_, ring) = init_idt-exceptions address idt v small (ground arith) in absurd (omega arith)
  | inr high ↦
      let kept : exception_gates address idt v ≡ idt v =
        set_reserved-away address (set_exceptions address idt 0 exceptions) 20 12 v
          (inr (ground arith))
        ∙ set_exceptions-away address idt 0 exceptions v (inr (ground arith)) in
      ground (arith, init_idt_lem address idt v, closed v)
]
