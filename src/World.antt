-- ===== src/World.antt =====
-- The kernel as a whole: its state between two interrupts, and what each interrupt of foki/idt.c may do to it.
-- The processor runs processes between them, which may write to any memory; the interrupts come in
-- any order. A system call that goes on in the timer interrupt, or in the loop that waits for the next
-- interrupt, is one step, and the timer interrupt another one.
pub mod Tests
pub mod Places
pub mod Keyboard
pub mod Calls
pub mod Spawn
pub mod Interrupts
pub mod Faulting
pub mod Reach
use acky.Base.{ℕ, ◌+◌, ◌<◌, ◌≤◌, ◌≡◌, u32, Option, none, some, Bool, true, false, List, ◌⊎◌}
use acky.Ram.{Ram}
use acky.Alloc.Inv.{top}
use acky.Process.{Kernel, stack_size, max_processes}
use acky.Fs.{FileInfo, fs_get_file_info, fs_read_file}
use acky.Keyboard.{KeyboardState, ps2_kbd_isr}
use acky.Mouse.{Mouse, ps2_mouse_isr}
use acky.Pit.{Frame, Pushed, ProcRegs, Machine, pit_isr}
use acky.Idt.{Handler}
use acky.Faults.Report.{Stack, Ending, Selectors, handle}
use acky.Syscall.{
  System, Environment, Reply, ram_of, with_ram, with_console, keyboard_of, caller, user_address,
}
use acky.Syscall.Dispatch.{Registers, sys_call}

-- The globals of the kernel.
pub record World : Type 0 where
  pub system : System
  pub mouse_cycle : ℕ
  pub mouse_byte : ℕ → ℕ
  pub mouse_x : ℕ
  pub mouse_y : ℕ
  pub proc_regs : ProcRegs
  pub can_preempt : Bool

abbrev pub kernel_of : World → Kernel
kernel_of w = w.system.kernel

abbrev pub with_kernel : World → Kernel → World
with_kernel w k = record w { system = record w.system { kernel = k } }

abbrev pub with_keyboard : World → KeyboardState → World
with_keyboard w m =
    let s = with_console w.system m.console in
    record w {
      system = record s {
        keys = m.keys;
        input = m.input;
        kernel = record s.kernel { processes = m.processes };
      };
    }

abbrev pub mouse_of : World → Mouse
mouse_of w = record {
  mouse_cycle = w.mouse_cycle;
  mouse_byte = w.mouse_byte;
  mouse_x = w.mouse_x;
  mouse_y = w.mouse_y;
  owner_pid = w.system.owner_pid;
  kernel = w.system.kernel;
}

abbrev pub with_mouse : World → Mouse → World
with_mouse w m = record (with_kernel w m.kernel) {
  mouse_cycle = m.mouse_cycle;
  mouse_byte = m.mouse_byte;
  mouse_x = m.mouse_x;
  mouse_y = m.mouse_y;
}

abbrev pub machine_of : World → Frame → Machine
machine_of w frame = record {
  kernel = w.system.kernel;
  current_ldt = w.system.segments.current_ldt;
  proc_regs = w.proc_regs;
  save_regs = w.system.save_regs;
  can_preempt = w.can_preempt;
  frame = frame;
}

abbrev pub with_machine : World → Machine → World
with_machine w m = record w {
  system = record w.system {
    kernel = m.kernel;
    segments = record w.system.segments { current_ldt = m.current_ldt };
    save_regs = m.save_regs;
  };
  proc_regs = m.proc_regs;
}

-- The state that the kernel goes on in after a call; none if the machine is off or halts.
abbrev pub goes_on : Reply → Option System
goes_on (Reply.returned v s) = some s
goes_on (Reply.to_timer s) = some s
goes_on (Reply.to_wait s) = some s
goes_on (Reply.ended p) = none
goes_on (Reply.stopped p) = none

-- The table has one of its 256 entries left, and every program that the file system finds leaves room for its
-- process in the 32-bit address space.
abbrev pub HasRoom : ℕ → Environment → System → Type 0
HasRoom fuel env s =
    (s.kernel.process_count < max_processes)
    × ((path : List ℕ) (ok : Bool) (out : ℕ → ℕ) (info info' : FileInfo)
        → fs_get_file_info fuel env.storage env.stale s.drives path env.stale_info
          ≡ some (true, info)
        → fs_read_file fuel env.storage env.stale s.drives path env.stale.buffer info
          ≡ some (ok, out, info')
        → top s.kernel.memory + info'.size + stack_size < u32)

-- One step.
pub data Step (w w' : World) : Type 0 where
  runs : (m : Ram) → w' ≡ record w { system = with_ram w.system m } → Step w w'
  calls :
      (fuel : ℕ) (env : Environment) (options : Registers) (reply : Reply) (s' : System)
      → (options.eax ≡ 2 → HasRoom fuel env w.system)
      → sys_call fuel env options w.system ≡ some reply
      → goes_on reply ≡ some s'
      → w' ≡ record w { system = s' }
      → Step w w'
  types :
      (fuel : ℕ) (beyond : ℕ → ℕ) (scan_code : ℕ) (m : KeyboardState)
      → ps2_kbd_isr fuel beyond scan_code (keyboard_of w.system) ≡ some m
      → w' ≡ with_keyboard w m
      → Step w w'
  moves :
      (stale : List ℕ) (byte : ℕ)
      → w' ≡ with_mouse w (ps2_mouse_isr stale byte (mouse_of w))
      → Step w w'
  ticks :
      (fuel trampoline cpu_flags : ℕ) (pushed : Pushed) (frame : Frame) (m : Machine)
      → pit_isr fuel trampoline cpu_flags pushed (machine_of w frame) ≡ some m
      → w' ≡ with_machine w m
      → Step w w'
  faults :
      (fuel : ℕ) (h : Handler) (esp : Stack) (code : ℕ) (frame frame' : Frame) (s' : System)
      (sel : Selectors)
      → handle fuel h esp code frame w.system ≡ some (Ending.resumed s' frame', sel)
      → w' ≡ record w { system = s' }
      → Step w w'

-- The states that any sequence of steps leads to.
pub data Run (w : World) : World → Type 0 where
  start : Run w w
  later : {u v : World} → Run w u → Step u v → Run w v
