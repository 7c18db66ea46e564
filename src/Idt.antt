-- ===== src/Idt.antt =====
-- The interrupt table of foki/idt.c: `setIDTGate`, the table that `initIDT` fills, and the words that
-- `PICMap` sends to the two interrupt controllers. The handlers are data; where they lie in memory
-- is an argument.
mod Tests
pub mod Gates
use acky.Base.{ℕ, zero, suc, ◌+◌, ◌*◌, ◌/◌, ◌%◌, ◌^◌, if◌then◌else◌, ◌==◌, update, List, [], ◌∷◌}
use acky.Io.{PortWrite, outb}

-- `gate`.
pub record Gate : Type 0 where
  pub offset_low : ℕ
  pub selector : ℕ
  pub zero_byte : ℕ
  pub flags : ℕ
  pub offset_high : ℕ

unfoldable pub set_idt_gate : (ℕ → Gate) → ℕ → ℕ → ℕ → ℕ → ℕ → Gate
set_idt_gate idt index address selector flags = update idt index (record {
  offset_low = address % 2 ^ 16;
  selector = selector;
  zero_byte = 0;
  flags = flags;
  offset_high = address / 2 ^ 16 % 2 ^ 16;
})

-- The functions that `initIDT` installs.
pub data Handler : Type 0 where
  divid_err debug_err nm_int_err break_err overflow_err bounds_check_err invalid_opcode_err :
      Handler
  dev_not_avail_err double_fault_err coproc_seg_overrun_err invalid_tss_err : Handler
  seg_not_present_err stack_fault_err gen_prot_fault_err page_fault_err reserved_err : Handler
  fpu_err align_check_err machine_check_err simd_err : Handler
  ps2_kbd_isr pit_isr irq7 ps2_mouse_isr sys_call : Handler

-- `for (i = 20; i <= 31; i++) setIDTGate(i, reservedErr, 0x08, 0x8F);`, from `i` on.
unfoldable pub set_reserved : (Handler → ℕ) → (ℕ → Gate) → ℕ → ℕ → ℕ → Gate
unfolding set_idt_gate
set_reserved address idt i zero = idt
set_reserved address idt i (suc left) =
    set_reserved address (set_idt_gate idt i (address Handler.reserved_err) 0x08 0x8F) (i + 1) left

-- The exception gates from `index` on, one for each handler.
unfoldable pub set_exceptions : (Handler → ℕ) → (ℕ → Gate) → ℕ → List Handler → ℕ → Gate
unfolding set_idt_gate
set_exceptions address idt index [] = idt
set_exceptions address idt index (h ∷ hs) =
    set_exceptions address (set_idt_gate idt index (address h) 0x08 0x8F) (index + 1) hs

abbrev pub exceptions : List Handler
exceptions =
    Handler.divid_err ∷ Handler.debug_err ∷ Handler.nm_int_err ∷ Handler.break_err
    ∷ Handler.overflow_err ∷ Handler.bounds_check_err ∷ Handler.invalid_opcode_err
    ∷ Handler.dev_not_avail_err ∷ Handler.double_fault_err ∷ Handler.coproc_seg_overrun_err
    ∷ Handler.invalid_tss_err ∷ Handler.seg_not_present_err ∷ Handler.stack_fault_err
    ∷ Handler.gen_prot_fault_err ∷ Handler.page_fault_err ∷ Handler.reserved_err ∷ Handler.fpu_err
    ∷ Handler.align_check_err ∷ Handler.machine_check_err ∷ Handler.simd_err ∷ []

-- The table that `initIDT` leaves.
unfoldable pub init_idt : (Handler → ℕ) → (ℕ → Gate) → ℕ → Gate
init_idt address idt =
    let e = set_exceptions address idt 0 exceptions in
    let r = set_reserved address e 20 12 in
    let k = set_idt_gate r 0x21 (address Handler.ps2_kbd_isr) 0x08 0x8E in
    let t = set_idt_gate k 0x20 (address Handler.pit_isr) 0x08 0x8E in
    let q = set_idt_gate t 0x27 (address Handler.irq7) 0x08 0xEE in
    let m = set_idt_gate q 0x2C (address Handler.ps2_mouse_isr) 0x08 0x8E in
    set_idt_gate m 0x40 (address Handler.sys_call) 0x08 0xEE

-- The bytes of `PICMap`, in order.
unfoldable pub pic_map : (master_offset slave_offset master_masks slave_masks : ℕ) → List PortWrite
pic_map master_offset slave_offset master_masks slave_masks =
    outb 0x20 0x11
    ∷ outb 0xA0 0x11
    ∷ outb 0x21 master_offset
    ∷ outb 0xA1 slave_offset
    ∷ outb 0x21 4
    ∷ outb 0xA1 2
    ∷ outb 0x21 0x01
    ∷ outb 0xA1 0x01
    ∷ outb 0x21 master_masks
    ∷ outb 0xA1 slave_masks
    ∷ []
