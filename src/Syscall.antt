-- ===== src/Syscall.antt =====
-- System calls of foki/idt.c: the state that `sysCall` works on, and its cases for text, input, the
-- process table, the serial port and the power. The children hold the other cases and the switch. The
-- registers are arguments. Serial messages are not kept, and neither are the flags for
-- `sti`. A process reads and writes the same memory as the kernel, at addresses of 32 bits; the kernel's
-- own tables are not in that memory.
pub mod Tests
pub mod Bytes
pub mod Tasks
pub mod Screen
pub mod Files
pub mod Dispatch
pub mod Reading
pub mod Refused
pub mod Ownership
pub mod Mail
pub mod Loading
use acky.Base.{
  ℕ, ◌+◌, ◌%◌, ◌^◌, if◌then◌else◌, ◌==◌, ltb, leb, update, add32, Option, none, some, Bool, true,
  false, List, Panic,
}
use acky.Io.{PortWrite}
use acky.Ram.{Ram}
use acky.Process.{Process, ProcMsg, Kernel, get_process_index_from_pid}
use acky.Console.{Console, print_char, clear_scr}
use acky.Keyboard.{Keys, Input, KeyboardState}
use acky.Gdt.{Segments}
use acky.Idt.{Gate, Handler}
use acky.Graphics.{VbeReturn}
use acky.Fs.{Storage, Stale, DriveTable, FileInfo}
use acky.Acpi.{Acpi, shutdown, reboot}
use acky.Serial.{Serial, serial_send}

-- `SyscallReturn`.
abbrev pub sret_success : ℕ
sret_success = 0

abbrev pub sret_error : ℕ
sret_error = 1

-- The globals that the calls read and write.
pub record System : Type 0 where
  pub kernel : Kernel
  pub keys : Keys
  pub input : Input
  pub video_mem : ℕ
  pub color_attribute : ℕ
  pub ports : List PortWrite
  pub faulty : Bool
  pub segments : Segments
  pub idt : ℕ → Gate
  pub vbe : VbeReturn
  pub owner_pid : ℕ
  pub owner_set : Bool
  pub save_regs : Bool
  pub drives : DriveTable
  pub acpi : Acpi

-- What lies outside the code: the disks, what the arrays on the stack held before, the call of a
-- function of the overlay with the pointer that it returns, the addresses that the linker
-- chose, the value of EBP, and what the ports answer.
pub record Environment : Type 0 where
  pub storage : Storage
  pub stale : Stale
  pub stale_info : FileInfo
  pub stale_msg : List ℕ
  pub stale_name : List ℕ
  pub call_kfe_function : ℕ → Ram → ℕ × Ram
  pub ldt_addr : ℕ
  pub tss_addr : ℕ
  pub gdt_addr : ℕ
  pub wait_addr : ℕ
  pub address : Handler → ℕ
  pub ebp : ℕ
  pub cursor_start_in : ℕ
  pub cursor_end_in : ℕ
  pub kbd_status : ℕ → ℕ

abbrev pub ram_of : System → Ram
ram_of s = s.kernel.memory.ram

abbrev pub with_ram : System → Ram → System
with_ram s m = record s { kernel = record s.kernel { memory = record s.kernel.memory { ram = m } } }

abbrev pub console_of : System → Console
console_of s = record {
  ram = ram_of s;
  video_mem = s.video_mem;
  color_attribute = s.color_attribute;
  ports = s.ports;
}

abbrev pub with_console : System → Console → System
with_console s c = record (with_ram s c.ram) {
  video_mem = c.video_mem;
  color_attribute = c.color_attribute;
  ports = c.ports;
}

-- The part that the keyboard interrupt works on.
abbrev pub keyboard_of : System → KeyboardState
keyboard_of s = record {
  keys = s.keys;
  input = s.input;
  processes = s.kernel.processes;
  console = console_of s;
}

-- How a call ends: by returning a value to the process, in the timer interrupt, in the loop that waits
-- for the next interrupt, with the machine off or reset by a port, or in `herr`.
pub data Reply : Type 0 where
  returned : ℕ → System → Reply
  to_timer : System → Reply
  to_wait : System → Reply
  ended : PortWrite → Reply
  stopped : Panic → Reply

-- The process that makes the call.
abbrev pub caller : System → Process
caller s = s.kernel.processes s.kernel.scheduler_process_at

-- `pointer > (uint32_t)processes[schedulerProcessAt].memSize`
abbrev pub is_invalid : System → ℕ → Bool
is_invalid s pointer = ltb (caller s).mem_size pointer

abbrev pub user_address : System → ℕ → ℕ
user_address s pointer = add32 pointer (caller s).mem_start

unfoldable pub sc_print_char : ℕ → ℕ → System → Option Reply
sc_print_char fuel ebx s = elim (print_char fuel (console_of s) (ebx % 2 ^ 8)) [
  | none ↦ none
  | some c ↦ some (Reply.returned sret_success (with_console s c))
]

unfoldable pub sc_get_u_input : (ebx ecx : ℕ) → System → Reply
sc_get_u_input ebx ecx s =
    let at = s.kernel.scheduler_process_at in
    if is_invalid s ebx
    then Reply.returned sret_error s
    else Reply.to_timer (record s {
      input = record s.input {
        process_buffer_loc = user_address s ebx;
        process_buffer_size = ecx;
        process_waiting_for_input = true;
        input_wainting_pid = at;
      };
      kernel = record s.kernel {
        processes = update s.kernel.processes at (record (caller s) { waiting = true });
      };
    })

unfoldable pub sc_is_proc_running : ℕ → System → Reply
sc_is_proc_running ebx s = elim (get_process_index_from_pid s.kernel ebx) [
  | none ↦ Reply.returned 0 s
  | some idx ↦ Reply.returned 1 s
]

unfoldable pub sc_clear_scr : System → Reply
sc_clear_scr s = Reply.returned sret_success (with_console s (clear_scr (console_of s)))

unfoldable pub sc_get_porc_num : System → Reply
sc_get_porc_num s = Reply.returned s.kernel.process_count s

unfoldable pub sc_get_proc_pid_from_idx : ℕ → System → Reply
sc_get_proc_pid_from_idx ebx s =
    if leb s.kernel.process_count ebx
    then Reply.returned sret_error s
    else Reply.returned (s.kernel.processes ebx).pid s

unfoldable pub sc_ch_layout : ℕ → System → Reply
sc_ch_layout ebx s =
    if ltb 1 ebx
    then Reply.returned sret_error s
    else Reply.returned sret_success
        (record s { keys = record s.keys { layout = if ebx == 0 then false else true } })

unfoldable pub sc_serial_send : ℕ → System → Reply
sc_serial_send ebx s =
    let port = serial_send (ebx % 2 ^ 8) (record { faulty = s.faulty; ports = s.ports }) in
    Reply.returned sret_success (record s { ports = port.ports })

unfoldable pub sc_ch_pwr : ℕ → Environment → (ebx : ℕ) → System → Option Reply
sc_ch_pwr fuel env ebx s =
    if ebx == 0
    then elim (shutdown (ram_of s) s.acpi) [
      | none ↦ some (Reply.returned sret_success s)
      | some w ↦ some (Reply.ended w)
    ]
    else if ebx == 1
    then elim (reboot fuel env.kbd_status) [ none ↦ none | some w ↦ some (Reply.ended w) ]
    else some (Reply.returned sret_success s)
