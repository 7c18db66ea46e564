-- ===== src/Process.antt =====
-- The process table of foki/process.c with its scheduler and message queues. An `int` that may be
-- -1 is its bit pattern, so -1 is 2 ^ 32 - 1. A name is the list of its bytes in front of the NUL;
-- the 32 bytes of its array are not bounded here, as `strcpy` does not bound them.
mod Tests
pub mod Sample
pub mod Schedule
pub mod Queue
pub mod Fifo
pub mod Entries
pub mod Kill
pub mod Sending
use acky.Base.{
  ℕ, zero, suc, ◌+◌, ◌-◌, ◌*◌, if◌then◌else◌, ◌==◌, ltb, leb, update, add32, sub32, u32, Option,
  none, some, Bool, true, false, List, Outcome, done, halted, ◌>>=◌, shift_down, ◌||◌,
}
use acky.Alloc.{Allocator, alloc_mem, free_mem}

pub record GeneralRegs : Type 0 where
  pub eax : ℕ
  pub ebx : ℕ
  pub ecx : ℕ
  pub edx : ℕ
  pub esi : ℕ
  pub edi : ℕ
  pub esp : ℕ
  pub ebp : ℕ
  pub flags : ℕ

-- `msg` holds the 50 bytes of the payload.
pub record ProcMsg : Type 0 where
  pub from_pid : ℕ
  pub msg : List ℕ

pub record Process : Type 0 where
  pub name : List ℕ
  pub waiting : Bool
  pub mem_start : ℕ
  pub mem_size : ℕ
  pub pc_loc : ℕ
  pub regs : GeneralRegs
  pub pid : ℕ
  pub ipc_queue_size : ℕ
  pub ipc_queue : ℕ → ProcMsg

-- The globals of process.c, with the allocator's and the timer's `tick`. The table has 256 entries; what
-- `processes` gives from 256 on is what lies behind it, which belongs to other globals. The tables lie
-- beside the memory: nothing is modelled that writes into them but their own code.
pub record Kernel : Type 0 where
  pub memory : Allocator
  pub processes : ℕ → Process
  pub process_count : ℕ
  pub scheduler_process_at : ℕ
  pub tick : ℕ

abbrev pub minus_one : ℕ
minus_one = u32 - 1

abbrev pub process_msg_queue_size : ℕ
process_msg_queue_size = 16

abbrev pub max_processes : ℕ
max_processes = 256

-- The stack that every process gets behind its image.
abbrev pub stack_size : ℕ
stack_size = 4096 * 4 + 1

-- What `createProcessEntry` stores in the table; the queue's cells keep what they held.
abbrev pub new_process : Process → List ℕ → ℕ → ℕ → ℕ → Process
new_process old name size start pid = record {
  name = name;
  waiting = false;
  mem_start = start;
  mem_size = size;
  pc_loc = 0;
  regs = record {
    eax = 0;
    ebx = 0;
    ecx = 0;
    edx = 0;
    esi = 0;
    edi = 0;
    esp = sub32 size 1;
    ebp = sub32 size 1;
    flags = 0x3206;
  };
  pid = pid;
  ipc_queue_size = 0;
  ipc_queue = old.ipc_queue;
}

unfoldable pub create_process_entry : Kernel → List ℕ → ℕ → Outcome (ℕ × Kernel)
create_process_entry k name file_size = do
  let size = add32 file_size stack_size
  (start, memory) ← alloc_mem k.memory size
  done (
    k.process_count,
    record k {
      memory = memory;
      processes = update k.processes k.process_count (
          new_process (k.processes k.process_count) name size start (add32 k.tick k.process_count));
      process_count = k.process_count + 1;
    },
  )

-- `for (i = 1; i < processCount; i++) if (processes[i].pid == pid) return i;`, from `i` on.
unfoldable pub find_pid : (ℕ → Process) → ℕ → ℕ → ℕ → Option ℕ
find_pid ps pid i zero = none
find_pid ps pid i (suc left) =
    let rest = find_pid ps pid (i + 1) left in if (ps i).pid == pid then some i else rest

unfoldable pub get_process_index_from_pid : Kernel → ℕ → Option ℕ
unfolding find_pid
get_process_index_from_pid k pid = find_pid k.processes pid 1 (k.process_count - 1)

-- One turn of the `do` loop of `getNextProcessDry`: `at++` and the two corrections.
unfoldable pub advance : ℕ → ℕ → ℕ
advance count at =
    let next = add32 at 1 in
    let wrapped = if leb count next then 1 else next in if wrapped == 0 then 1 else wrapped

-- The `do` loop; it may run for ever, so it takes fuel, and `none` means that it still runs.
unfoldable pub next_from : ℕ → (ℕ → Process) → ℕ → ℕ → Option ℕ
next_from zero ps count at = none
next_from (suc fuel) ps count at =
    let next = advance count at in
    let rest = next_from fuel ps count next in if (ps next).waiting then rest else some next

unfoldable pub get_next_process_dry : ℕ → Kernel → Option ℕ
unfolding next_from advance
get_next_process_dry fuel k =
    if k.process_count == 0
    then some minus_one
    else next_from fuel k.processes k.process_count k.scheduler_process_at

unfoldable pub get_next_process : ℕ → Kernel → Option (ℕ × Kernel)
unfolding get_next_process_dry
get_next_process fuel k = elim (get_next_process_dry fuel k) [
  | none ↦ none
  | some at ↦ some (at, record k { scheduler_process_at = at })
]

unfoldable pub get_current_process_idx : Kernel → ℕ
get_current_process_idx k = if k.process_count == 0 then minus_one else k.scheduler_process_at

-- `idx < 0 || idx >= processCount`: a negative index is a pattern from 2 ^ 31 on.
abbrev pub is_outside : Kernel → ℕ → Bool
is_outside k idx = leb 0x80000000 idx || leb k.process_count idx

unfoldable pub get_pc_loc : Kernel → ℕ → ℕ
get_pc_loc k idx = if is_outside k idx then 0 else (k.processes idx).pc_loc

unfoldable pub set_process_pc : Kernel → ℕ → ℕ → Kernel
set_process_pc k idx pc =
    if is_outside k idx
    then k
    else record k { processes = update k.processes idx (record (k.processes idx) { pc_loc = pc }) }

abbrev pub lower_process : ℕ → Process → Process
lower_process size p = record p { mem_start = sub32 p.mem_start size }

-- `processes[i + 1].memStart -= memSize; processes[i] = processes[i + 1];` from the index on.
unfoldable pub kill : Kernel → ℕ → Kernel
unfolding shift_down
kill k pid = elim (get_process_index_from_pid k pid) [
  | none ↦ k
  | some idx ↦
      let size = (k.processes idx).mem_size in
      record k {
        memory = (free_mem k.memory (k.processes idx).mem_start).1;
        processes = shift_down (lower_process size) k.processes idx (k.process_count - 1 - idx);
        process_count = k.process_count - 1;
      }
]

-- The sender's message is changed too: its `fromPID` is overwritten with the pid of the process
-- that the scheduler is at. The flag is the returned 1 or 0.
unfoldable pub send_message_to_process : Kernel → ℕ → ProcMsg → Bool × ProcMsg × Kernel
send_message_to_process k pid msg = elim (get_process_index_from_pid k pid) [
  | none ↦ (false, msg, k)
  | some idx ↦
      let p = k.processes idx in
      if leb process_msg_queue_size p.ipc_queue_size
      then (false, msg, k)
      else let sent = record msg { from_pid = (k.processes k.scheduler_process_at).pid } in
        (
          true,
          sent,
          record k {
            processes = update k.processes idx (record p {
              ipc_queue_size = p.ipc_queue_size + 1;
              ipc_queue = update p.ipc_queue p.ipc_queue_size sent;
            });
          },
        )
]

-- The shift of SC_MSG in foki/idt.c: `IPCQueue[i] = IPCQueue[i + 1]`, from `i` on.
unfoldable pub shift_queue : (ℕ → ProcMsg) → ℕ → ℕ → ℕ → ProcMsg
shift_queue q i zero = q
shift_queue q i (suc left) = shift_queue (update q i (q (i + 1))) (i + 1) left

-- The pop of SC_MSG for the process that the scheduler is at: its oldest message, if there is one.
unfoldable pub pop_message : Kernel → Option ProcMsg × Kernel
unfolding shift_queue
pop_message k =
    let at = k.scheduler_process_at in
    let p = k.processes at in
    if leb p.ipc_queue_size 0 then (none, k) else (
      some (p.ipc_queue 0),
      record k {
        processes = update k.processes at (record p {
          ipc_queue_size = p.ipc_queue_size - 1;
          ipc_queue = shift_queue p.ipc_queue 0 (p.ipc_queue_size - 1);
        });
      },
    )
