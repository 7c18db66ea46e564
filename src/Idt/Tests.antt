-- ===== src/Idt/Tests.antt =====
-- Tests of the interrupt table, and its theorems at a concrete table.
use acky.Base.{ℕ, ◌<◌, ◌≡◌, ◌⊎◌, refl, arith, if◌then◌else◌, ltb}
use acky.Idt.{Gate, Handler, init_idt, exceptions, set_idt_gate, set_reserved, set_exceptions}
use acky.Idt.Gates.{nth, dpl_of, Installed, init_idt-exceptions, init_idt_user_gates}

-- All handlers but two lie at the same place.
abbrev address : Handler → ℕ
address Handler.sys_call = 0x10400
address Handler.page_fault_err = 0x1234567
address h = 0x10000

abbrev empty_table : ℕ → Gate
empty_table v = record { offset_low = 0; selector = 0; zero_byte = 0; flags = 0; offset_high = 0 }

address-small : (h : Handler) → address h < 0x100000000
address-small h = elim h as (λ k. address k < 0x100000000) [
  | Handler.sys_call ↦ omega arith
  | Handler.page_fault_err ↦ omega arith
  | _ ↦ omega arith
]

page_fault_gate : (init_idt address empty_table 14).offset_high ≡ 0x123
unfolding init_idt set_idt_gate set_reserved set_exceptions
page_fault_gate = refl

init_idt-exceptions_example :
    Installed
      (init_idt address empty_table 14)
      (address (if ltb 14 20 then nth exceptions 14 else Handler.reserved_err))
      0x8F
    × (dpl_of (init_idt address empty_table 14) ≡ 0)
init_idt-exceptions_example = init_idt-exceptions address empty_table 14 address-small (omega arith)

abbrev vector : ℕ
vector = 0x40

init_idt_user_gates_example : (vector ≡ 0x40) ⊎ (vector ≡ 0x27)
unfolding init_idt set_idt_gate set_reserved set_exceptions
init_idt_user_gates_example =
    init_idt_user_gates address empty_table vector address-small (λ w h. omega arith) refl
