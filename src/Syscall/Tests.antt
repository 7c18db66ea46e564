-- ===== src/Syscall/Tests.antt =====
-- Tests of the system calls, and their theorem at a concrete call.
use acky.Base.{ℕ, ◌≡◌, refl, arith, true, false, [], ◌∷◌, some, add32}
use acky.Process.{Kernel, find_pid, get_process_index_from_pid}
use acky.Process.Queue.{mailbox}
use acky.Process.Sample.{three}
use acky.Gdt.{GdtDescriptor, Segments}
use acky.Idt.{Gate}
use acky.Fs.Sample.{storage, stale, table, no_info}
use acky.Syscall.{
  System, Environment, Reply, ram_of, with_ram, user_address, sc_get_u_input,
  sc_get_proc_pid_from_idx, sret_error, sret_success,
}
use acky.Syscall.Bytes.{bytes_at, store_bytes, dword_bytes}
use acky.Syscall.Dispatch.{sys_call}
use acky.Syscall.Refused.{Pointer, sys_call-refused}
use acky.Syscall.Ownership.{SameBut, sys_call-not_owner}
use acky.Syscall.Mail.{run_at, sys_call-message}

abbrev no_descriptor : GdtDescriptor
no_descriptor = record {
  limit_low = 0;
  base_low = 0;
  base_middle = 0;
  access = 0;
  granularity = 0;
  base_high = 0;
}

abbrev no_gate : Gate
no_gate = record { offset_low = 0; selector = 0; zero_byte = 0; flags = 0; offset_high = 0 }

abbrev no_segments : Segments
no_segments = record {
  gdt = λ i. no_descriptor;
  current_ldt = λ i. no_descriptor;
  gdtr_size = 0;
  gdtr_offset = 0;
  esp0 = 0;
  ss0 = 0;
}

abbrev pub system : System
system = record {
  kernel = three;
  keys = record {
    left_shift = false;
    right_shift = false;
    caps_lock = false;
    alt_pressed = false;
    left_ctrl_pressed = false;
    k_pressed = false;
    layout = true;
  };
  input = record {
    process_buffer_loc = 0;
    process_buffer_pos = 0;
    process_buffer_size = 0;
    process_waiting_for_input = false;
    input_wainting_pid = 0;
  };
  video_mem = 0xB8000;
  color_attribute = 0x07;
  ports = [];
  faulty = false;
  segments = no_segments;
  idt = λ i. no_gate;
  vbe = record { pitch = 3072; bpp = 24; framebuffer = 0xFD000000 };
  owner_pid = 11;
  owner_set = true;
  save_regs = true;
  drives = table;
  acpi = record { rsdt = 0; fadt = 0; dsdt = 0 };
}

abbrev pub env : Environment
env = record {
  storage = storage;
  stale = stale;
  stale_info = no_info;
  stale_msg = [];
  stale_name = [];
  call_kfe_function = λ i m. (0, m);
  ldt_addr = 0x5000;
  tss_addr = 0x5100;
  gdt_addr = 0x5200;
  wait_addr = 0x6000;
  address = λ h. 0x7000;
  ebp = 0x4000;
  cursor_start_in = 0;
  cursor_end_in = 0;
  kbd_status = λ k. 0;
}

pid_of_2 : sc_get_proc_pid_from_idx 2 system ≡ Reply.returned 12 system
unfolding sc_get_proc_pid_from_idx
pid_of_2 = refl

too_far : sc_get_u_input 101 4 system ≡ Reply.returned sret_error system
unfolding sc_get_u_input
too_far = refl

abbrev zero_beyond : ℕ → ℕ
zero_beyond i = 0

-- A path behind the memory of the process.
sys_call-refused_example :
    sys_call 3 env (record { eax = 14; ebx = 101; ecx = 0; edx = 0 }) system
    ≡ some (Reply.returned sret_error system)
sys_call-refused_example =
    sys_call-refused 3 env 14 101 0 0 101 system (Pointer.file_path refl refl) (omega arith)

-- The process with pid 12 asks for a pixel while the one with pid 11 owns the screen.
sys_call-not_owner_example :
    (v : ℕ) × (k' : Kernel) × (sys_call 3 env
        (record { eax = 13; ebx = 1; ecx = 40; edx = 0 })
        system
      ≡ some (Reply.returned v (record system { kernel = k' })))
    × SameBut 11 three k'
sys_call-not_owner_example = sys_call-not_owner 3 env 1 40 0 system refl (omega arith)

pid_11 : get_process_index_from_pid three 11 ≡ some 1
unfolding get_process_index_from_pid find_pid
pid_11 = refl

sys_call-message_example :
    (s₁ : System) × (s₂ : System) × (sys_call 3 env
        (record { eax = 11; ebx = 0; ecx = 30; edx = 11 })
        system
      ≡ some (Reply.returned sret_success s₁))
    × (sys_call 3 env (record { eax = 11; ebx = 1; ecx = 20; edx = 0 }) (run_at s₁ 1)
        ≡ some (Reply.returned sret_success s₂))
    × ((bytes_at (ram_of s₂) (add32 20 0x300064) 4 ≡ dword_bytes 12)
        × (bytes_at (ram_of s₂) (add32 (add32 20 0x300064) 4) 50
            ≡ bytes_at (ram_of system) (add32 (user_address system 30) 4) 50))
    × (mailbox s₂.kernel 1 ≡ [])
sys_call-message_example =
    sys_call-message 3 env system 30 11 1 20 0 refl pid_11 refl (omega arith) (omega arith)

-- The path lies at the start of the memory of the process.
abbrev reader : System
reader =
    with_ram system
      (store_bytes (λ a. 0) 0x3000C8 (b'A' ∷ b':' ∷ b'/' ∷ b'D' ∷ b'/' ∷ b'F' ∷ 0 ∷ []))
