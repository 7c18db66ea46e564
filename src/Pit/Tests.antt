-- ===== src/Pit/Tests.antt =====
-- Tests of the timer interrupt, and its theorems at a concrete machine.
use acky.Io.{outb}
use acky.Pit.Clock.{init_pit}
use acky.Base.{[], ◌∷◌, ◌+◌, ◌<◌, ◌≡◌, refl, arith, some, true, false, update, sym}
use acky.Gdt.{Descriptors}
use acky.Gdt.Decode.{base_of, length_of}
use acky.Process.{Kernel, get_next_process}
use acky.Process.Sample.{proc, three, three-IsCoherent}
use acky.Pit.{Frame, Pushed, ProcRegs, Machine, pit_isr, set_process_ldt}
use acky.Pit.Segment.{set_process_ldt-overlap}
use acky.Pit.Switch.{
  Preempts, Switched, Prepared, pit_isr_lem, interrupted, pit_isr-Switched, pit_isr_resume,
}

abbrev blank : Descriptors
blank i = record {
  limit_low = 0;
  base_low = 0;
  base_middle = 0;
  access = 0;
  granularity = 0;
  base_high = 0;
}

abbrev pub pushed : Pushed
pushed = record { eax = 1; edx = 2; ecx = 3; ebx = 4; edi = 5; esi = 6 }

abbrev pub frame : Frame
frame = record { ip = 0x1234; cs = 0x07; flags = 0x246; sp = 0x4000; ss = 0x0F }

abbrev pub zero_regs : ProcRegs
zero_regs = record {
  eax = 0;
  ebx = 0;
  ecx = 0;
  edx = 0;
  esi = 0;
  edi = 0;
  esp = 0;
  ebp = 0;
  flags = 0;
  ip = 0;
}

-- The processes of `three`, all ready.
abbrev ready : Kernel
ready = record three { processes = λ j. record (proc j) { waiting = false } }

-- Process 2 runs.
abbrev machine : Machine
machine = record {
  kernel = ready;
  current_ldt = blank;
  proc_regs = zero_regs;
  save_regs = true;
  can_preempt = true;
  frame = frame;
}

picked_1 : get_next_process 3 ready ≡ some (1, record ready { scheduler_process_at = 1 })
unfolding get_next_process
picked_1 = refl

machine-Preempts : Preempts 3 machine 1
machine-Preempts = record {
  on = refl;
  save = refl;
  listed = omega arith;
  small = omega arith;
  after = record ready { scheduler_process_at = 1 };
  pick = picked_1;
  real = omega arith;
}

pit_isr-Switched_example :
    (m' : Machine) × (pit_isr 3 0x11000 0x202 pushed machine ≡ some m')
    × Switched machine pushed 1 m'
    × Prepared (m'.kernel.processes 1) machine.current_ldt m'
pit_isr-Switched_example =
    pit_isr-Switched 3 0x11000 0x202 pushed machine 1 machine-Preempts (omega arith)

abbrev resting : Frame
resting = record { ip = 0x11000; cs = 0x08; flags = 2; sp = 0x8000; ss = 0x10 }

-- Process 1 runs, behind that interrupt.
abbrev later : Machine
later = record machine {
  kernel = record ready {
    processes = update ready.processes 2 (interrupted (ready.processes 2) pushed frame);
    scheduler_process_at = 1;
    tick = 41;
  };
  frame = resting;
}

picked_2 :
    get_next_process 3 later.kernel ≡ some (2, record later.kernel { scheduler_process_at = 2 })
unfolding get_next_process
picked_2 = refl

later-Preempts : Preempts 3 later 2
later-Preempts = record {
  on = refl;
  save = refl;
  listed = omega arith;
  small = omega arith;
  after = record later.kernel { scheduler_process_at = 2 };
  pick = picked_2;
  real = omega arith;
}

first_switch :
    (m' : Machine) × (pit_isr 3 0x11000 0x202 pushed machine ≡ some m')
    × Switched machine pushed 1 m'
first_switch = pit_isr_lem 3 0x11000 0x202 pushed machine 1 machine-Preempts

second_switch :
    (m' : Machine) × (pit_isr 3 0x11000 0x202 pushed later ≡ some m') × Switched later pushed 2 m'
second_switch = pit_isr_lem 3 0x11000 0x202 pushed later 2 later-Preempts

pit_isr_resume_example : second_switch.0.proc_regs ≡ record {
  eax = 1;
  ebx = 4;
  ecx = 3;
  edx = 2;
  esi = 6;
  edi = 5;
  esp = 0x4000;
  ebp = 0;
  flags = 0x246;
  ip = 0x1234;
}
pit_isr_resume_example =
    pit_isr_resume 3 3 0x11000 0x202 0x202 pushed pushed machine first_switch.0 later
      second_switch.0 1 machine-Preempts first_switch.1 later-Preempts (λ e. omega arith)
      (sym first_switch.2.saved) second_switch.1

set_process_ldt-overlap_example :
    0x3000C8
    < base_of (set_process_ldt blank (proc 1) 1) + length_of (set_process_ldt blank (proc 1) 1)
set_process_ldt-overlap_example =
    set_process_ldt-overlap blank three 1 three-IsCoherent (omega arith) (omega arith) (omega arith)

init_pit_1000 : init_pit 1000 [] ≡ (outb 0x40 4 ∷ outb 0x40 0xA9 ∷ outb 0x43 0x36 ∷ [])
unfolding init_pit
init_pit_1000 = refl
