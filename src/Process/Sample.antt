-- ===== src/Process/Sample.antt =====
-- A kernel with three processes, for the tests.
use acky.Base.{ℕ, ◌+◌, ◌-◌, ◌%◌, refl, arith, ◌==◌, if◌then◌else◌, [], ◌∷◌, ◌*◌}
use acky.Alloc.{MemEntry, entry, Allocator}
use acky.Process.{Process, GeneralRegs, ProcMsg, Kernel}
use acky.Process.Entries.{IsCoherent}

abbrev pub no_regs : GeneralRegs
no_regs = record {
  eax = 0;
  ebx = 0;
  ecx = 0;
  edx = 0;
  esi = 0;
  edi = 0;
  esp = 0;
  ebp = 0;
  flags = 0;
}

abbrev pub no_msg : ProcMsg
no_msg = record { from_pid = 0; msg = [] }

-- Process `j` of `three`: pids 10, 11 and 12, and 100 bytes each.
abbrev pub proc : ℕ → Process
proc j = record {
  name = 65 ∷ [];
  waiting = j == 1;
  mem_start = 0x300000 + 100 * j;
  mem_size = 100;
  pc_loc = 0;
  regs = no_regs;
  pid = j + 10;
  ipc_queue_size = 0;
  ipc_queue = λ i. no_msg;
}

abbrev pub blocks : ℕ → MemEntry
blocks i =
    if i == 0
    then entry 0 0
    else if i == 1
    then entry 0 0x300000
    else entry (0x300000 + 100 * (i - 2)) 100

abbrev pub memory : Allocator
memory = record { ram = λ a. a % 256; mem_list = blocks; mem_index = 5; system_memory = 0x1000000 }

-- The kernel's process, one that waits and one that is ready.
abbrev pub three : Kernel
three = record {
  memory = memory;
  processes = proc;
  process_count = 3;
  scheduler_process_at = 2;
  tick = 40;
}

pub three-IsCoherent : IsCoherent three
three-IsCoherent = record {
  valid = record {
    null_start = refl;
    null_size = refl;
    positive = omega arith;
    bounded = omega arith;
    adjacent = λ i h. ground arith;
    non_empty = λ i p h. ground arith;
    top-lt = omega arith;
  };
  in_step = refl;
  starts = λ j h. ground arith;
  sizes = λ j h. ground arith;
}
