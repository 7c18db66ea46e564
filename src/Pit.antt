-- ===== src/Pit.antt =====
-- The timer interrupt of foki/pit.c: the context switch. What the processor and the stub put on the
-- stack is an argument, the registers that pit.asm's `trampoline` loads are part of the state, and
-- the search for the next process takes the fuel of `get_next_process`. The writes to the
-- interrupt controller and to the data segment register, which end the handler, are not kept.
pub mod Tests
pub mod Switch
pub mod Segment
pub mod Clock
use acky.Base.{
  ℕ, ◌+◌, ◌-◌, ◌*◌, ◌/◌, ◌%◌, ◌^◌, if◌then◌else◌, ◌==◌, update, add32, Option, none, some, Bool,
  true, false,
}
use acky.Gdt.{Descriptors, set_ldt_entry}
use acky.Process.{
  GeneralRegs, Process, Kernel, stack_size, minus_one, get_next_process, get_current_process_idx,
  set_process_pc,
}

-- `interrupt_frame`.
pub record Frame : Type 0 where
  pub ip : ℕ
  pub cs : ℕ
  pub flags : ℕ
  pub sp : ℕ
  pub ss : ℕ

-- The six registers that the handler pushes first, `esp[0]` to `esp[5]`.
pub record Pushed : Type 0 where
  pub eax : ℕ
  pub edx : ℕ
  pub ecx : ℕ
  pub ebx : ℕ
  pub edi : ℕ
  pub esi : ℕ

-- The `proc_` globals, from which the trampoline loads the registers.
pub record ProcRegs : Type 0 where
  pub eax : ℕ
  pub ebx : ℕ
  pub ecx : ℕ
  pub edx : ℕ
  pub esi : ℕ
  pub edi : ℕ
  pub esp : ℕ
  pub ebp : ℕ
  pub flags : ℕ
  pub ip : ℕ

pub record Machine : Type 0 where
  pub kernel : Kernel
  pub current_ldt : Descriptors
  pub proc_regs : ProcRegs
  pub save_regs : Bool
  pub can_preempt : Bool
  pub frame : Frame

-- `x & ~(1 << 9)`: the interrupt flag is cleared.
abbrev pub clear_bit9 : ℕ → ℕ
clear_bit9 x = x - x / 512 % 2 * 512

-- The stores to `processes[currentProcessIndex]`, and `setProcessPC`.
unfoldable pub save_process : Kernel → ℕ → Pushed → Frame → Kernel
unfolding set_process_pc
save_process k current pushed frame =
    let p = k.processes current in
    let regs : GeneralRegs = record p.regs {
      eax = pushed.eax;
      edx = pushed.edx;
      ecx = pushed.ecx;
      ebx = pushed.ebx;
      edi = pushed.edi;
      esi = pushed.esi;
      esp = frame.sp;
      flags = frame.flags;
    } in
    set_process_pc (record k { processes = update k.processes current (record p { regs = regs }) })
      current frame.ip

-- The two descriptors of a process, code and data.
unfoldable pub set_process_ldt : Descriptors → Process → Descriptors
unfolding set_ldt_entry
set_process_ldt ldt p =
    let size = add32 p.mem_size stack_size in
    set_ldt_entry (set_ldt_entry ldt 0 p.mem_start size 0xFA 0xCF) 1 p.mem_start size 0xF2 0xCF

-- The globals that the trampoline will load for a process.
unfoldable pub restore_process : Process → ProcRegs
restore_process p = record {
  eax = p.regs.eax;
  ebx = p.regs.ebx;
  ecx = p.regs.ecx;
  edx = p.regs.edx;
  esi = p.regs.esi;
  edi = p.regs.edi;
  esp = p.regs.esp;
  ebp = p.regs.ebp;
  flags = p.regs.flags;
  ip = p.pc_loc;
}

-- What stands behind the label `trampolineSetup`, with the flags that `pushf` reads.
unfoldable pub trampoline_setup : ℕ → ℕ → Machine → Machine
trampoline_setup trampoline cpu_flags m = record m {
  frame = record {
    ip = trampoline;
    flags = clear_bit9 cpu_flags;
    cs = 0x08;
    ss = 0x10;
    sp = 0x8000;
  };
}

-- The switch from the current process to the one that was picked.
unfoldable pub switch_to : Machine → Pushed → ℕ → ℕ → Kernel → Machine
unfolding save_process set_process_ldt restore_process
switch_to m pushed current next k =
    let saved = if m.save_regs then save_process k current pushed m.frame else k in
    let p = saved.processes next in
    record m {
      kernel = saved;
      current_ldt = set_process_ldt m.current_ldt p;
      proc_regs = restore_process p;
      save_regs = true;
    }

abbrev tick_up : Machine → Machine
tick_up m = record m { kernel = record m.kernel { tick = add32 m.kernel.tick 1 } }

-- `PITISR`.
unfoldable pub pit_isr : ℕ → (trampoline cpu_flags : ℕ) → Pushed → Machine → Option Machine
unfolding switch_to trampoline_setup
pit_isr fuel trampoline cpu_flags pushed m =
    if m.can_preempt
    then elim (get_next_process fuel m.kernel) [
      | none ↦ none
      | some (next, k) ↦
          let switched =
            if next == minus_one
            then record m { kernel = k }
            else switch_to m pushed (get_current_process_idx m.kernel) next k in
          some (tick_up (trampoline_setup trampoline cpu_flags switched))
    ]
    else some (tick_up m)
