-- ===== src/Kmain.antt =====
-- The entry of the kernel, foki/kmain.c: the start-up, in the order of `kmain`, and the loading and the calls of
-- the overlay. What the hardware answers and the structure of the boot loader are arguments. Interrupts that
-- come while `kmain` runs are left out. A stage is `none` while a loop of it still runs, and halts where
-- the code calls `herr`; of the texts that are sent to the serial port those of `initFS` and of
-- the functions below it are not kept.
pub mod Overlay
mod Tests
use acky.Base.{
  ℕ, ◌+◌, ◌*◌, ◌/◌, ◌%◌, ◌^◌, if◌then◌else◌, ◌==◌, ltb, mul32, not, Option, none, some, Bool, true,
  false, List, [], ◌∷◌, ◌++◌, text, Outcome, done, halted, Panic,
}
use acky.Io.{PortWrite}
use acky.Ram.{Ram}
use acky.Alloc.{init_mem}
use acky.Console.{set_color_attribute, clear_scr, enable_cursor}
use acky.Decimal.Text.{int_text}
use acky.Serial.{Serial, init_serial}
use acky.Gdt.{init_gdt}
use acky.Idt.{init_idt, pic_map}
use acky.Acpi.{init_acpi}
use acky.Ata.Identify.{Device, Disks, ata_init}
use acky.Fs.{Storage, init_fs}
use acky.Mouse.Init.{Answers, init_ps2_mouse}
use acky.Pit.Clock.{init_pit}
use acky.Loader.{spawn_process}
use acky.Faults.Report.{log, say, default_color}
use acky.Syscall.{System, Environment, ram_of, with_ram, console_of, with_console}
use acky.World.{World}
use acky.Kmain.Overlay.{load_kfe}

-- The fields of `multiboot_info_t` that are read, and `magic`.
pub record MultibootInfo : Type 0 where
  pub magic : ℕ
  pub flags : ℕ
  pub cmdline : List ℕ
  pub mem_upper : ℕ
  pub mods_count : ℕ

-- What the serial port echoes, the drives, and the controller of the mouse.
pub record Hardware : Type 0 where
  pub echo : ℕ
  pub master : Device
  pub slave : Device
  pub mouse : Answers

abbrev pub Stage : Type 0 → Type 0
Stage A = Option (Outcome A)

infixl 5 ◌>>=◌
abbrev pub ◌>>=◌ : {A B : Type 0} → Stage A → (A → Stage B) → Stage B
none >>= f = none
some (halted p) >>= f = some (halted p)
some (done a) >>= f = f a

-- A part that may still run, and a part that may halt.
abbrev pub looped : {A : Type 0} → Option A → Stage A
looped none = none
looped (some a) = some (done a)

abbrev pub stopped : {A : Type 0} → Outcome A → Stage A
stopped o = some o

-- The bytes are sent in the order of the list.
abbrev pub sent : List PortWrite → System → System
sent [] s = s
sent (w ∷ ws) s = sent ws (record s { ports = w ∷ s.ports })

-- The first lines on the screen, and the size of the memory.
unfoldable pub announce : ℕ → MultibootInfo → System → Stage System
announce fuel mbd s = do
  let clear = with_console s (clear_scr (set_color_attribute (console_of s) default_color))
  let size = mul32 mbd.mem_upper 1024
  s₁ ← looped (
      say fuel
        (text "Acky OS 0.2.2 (BareFox)"
          ++ text "\n"
          ++ text "CMDLine: "
          ++ mbd.cmdline
          ++ text "\n")
        clear)
  looped (
      say fuel (int_text (size / 1000 / 1000) ++ text "MB Ready\n") (record s₁ {
        kernel = record s₁.kernel { memory = record s₁.kernel.memory { system_memory = size } };
      }))

-- From `initSerial` to `initIDT`.
unfoldable pub init_tables : Environment → Hardware → System → System
init_tables env hw s =
    let port = init_serial hw.echo (record { faulty = s.faulty; ports = s.ports }) in
    let s₁ =
      log (text "Kernel initialization started. Version Acky OS 0.2.2 (BareFox)\n")
        (record s { faulty = port.faulty; ports = port.ports }) in
    let s₂ = record s₁ {
      segments = init_gdt s₁.segments env.ldt_addr env.tss_addr env.gdt_addr env.ebp;
    } in
    let s₃ =
      with_console s₂ (enable_cursor (console_of s₂) 9 11 env.cursor_start_in env.cursor_end_in) in
    let s₄ = record s₃ { ports = init_pit 1000 s₃.ports; idt = init_idt env.address s₃.idt } in
    sent (pic_map 0x20 0x28 0xF8 0xEF) s₄

-- `initACPI` and `ataInit`: the drives that are there.
unfoldable pub init_disks : ℕ → Hardware → Disks → System → Stage (Disks × System)
init_disks fuel hw d s = do
  (acpi, w) ← stopped (init_acpi (ram_of s) s.acpi)
  let port : Serial = record { faulty = s.faulty; ports = w ∷ s.ports }
  d' ← looped (ata_init fuel hw.master hw.slave (record d { serial = port }))
  some (done (d', record s { acpi = acpi; ports = d'.serial.ports }))

-- `initFS`, `initMem` and `initPS2Mouse`.
unfoldable pub init_stores : Environment → Hardware → System → Stage System
init_stores env hw s = do
  drives ← stopped (init_fs env.storage env.stale s.drives)
  memory ← stopped (init_mem s.kernel.memory)
  let mouse = init_ps2_mouse hw.mouse (record { statuses = 0; reads = 0; ports = s.ports })
  some (
      done (record s {
        drives = drives;
        kernel = record s.kernel { memory = memory };
        ports = mouse.ports;
      }))

-- `spawnProcess`, whose result is not looked at.
unfoldable pub spawn : ℕ → Environment → (path : List ℕ) → System → Stage System
spawn fuel env path s = do
  (pid, k) ← spawn_process fuel env.storage env.stale s.drives path env.stale_info s.kernel
  some (done (record s { kernel = k }))

-- What follows the tests of `kmain`.
unfoldable pub start_system : ℕ → Environment → Hardware → Disks → World → System → Stage World
unfolding init_tables init_disks init_stores spawn load_kfe
start_system fuel env hw d w s = do
  s₁ ← looped (say fuel (text "Starting kernel... ") s)
  (d', s₂) ← init_disks fuel hw d (init_tables env hw s₁)
  let there = record env { storage = record env.storage { ata = d'.drives } }
  s₃ ← init_stores there hw s₂
  (addr, s₄) ← looped (load_kfe fuel there (text "A:/ACKYDAT/KRME.KFE") s₃)
  s₅ ← spawn fuel there (text "A:/ACKYDAT/KPROC.ASA") s₄
  s₆ ← spawn fuel there (text "A:/ACKYDAT/INIT.ASA") s₅
  s₇ ←
      looped (say fuel (text "Done\n") (log (text "[kmain]: Kernel initialization completed\n") s₆))
  some (done (record w { system = s₇; can_preempt = true }))

unfoldable pub kmain : ℕ → Environment → Hardware → Disks → MultibootInfo → World → Stage World
unfolding announce start_system
kmain fuel env hw d mbd w =
    if not (mbd.magic == 0x2BADB002)
    then some (halted Panic.invalid_magic)
    else if mbd.flags / 2 ^ 6 % 2 == 0
    then some (halted Panic.invalid_memory_map)
    else (announce fuel mbd w.system >>= λ s.
        if ltb 0 mbd.mods_count
        then some (halted Panic.kernel_modules)
        else start_system fuel env hw d w s)
