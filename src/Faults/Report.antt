-- ===== src/Faults/Report.antt =====
-- The whole of the exception handlers of foki/faultHandlers.c, and of `intHerr` and `herr` of foki/herr.c: what they
-- print and send, and the segment registers. The words on the stack are an argument; what `cli` and `sti`
-- do is not kept.
use acky.Base.{ℕ, if◌then◌else◌, ◌==◌, Option, none, some, List, [], ◌++◌, text}
use acky.Process.{kill}
use acky.Console.{set_color_attribute, print, clear_scr, disable_cursor}
use acky.Serial.{serial_send_string}
use acky.Decimal.Text.{int_text}
use acky.Idt.{Handler}
use acky.Pit.{Frame}
use acky.Faults.{reports, frame_seen}
use acky.Syscall.{System, Environment, console_of, with_console}
use acky.Syscall.Screen.{enable_text}

-- `herr` and `intHerr` push EAX, EDX, ECX and EBX; `esp[0]` is what was pushed last.
pub record Stack : Type 0 where
  pub eax : ℕ
  pub edx : ℕ
  pub ecx : ℕ
  pub ebx : ℕ

-- How a handler ends: at the instruction that it came from, or in the loop that halts.
pub data Ending : Type 0 where
  resumed : System → Frame → Ending
  halted : System → Ending

-- `serialSendString`.
abbrev pub log : List ℕ → System → System
log str s = record s {
  ports = (serial_send_string str (record { faulty = s.faulty; ports = s.ports })).ports;
}

-- `print`.
abbrev pub say : ℕ → List ℕ → System → Option System
say fuel str s = elim (print fuel (console_of s) str) [
  | none ↦ none
  | some c ↦ some (with_console s c)
]

-- The text up to the contents of the registers, with what the code takes for the registers.
unfoldable pub report_text : (str : List ℕ) → Stack → List ℕ
report_text str esp =
    text "### OS ERROR ###\nSystem version: Acky OS 0.2.2 (BareFox)\n"
    ++ text "Error message: "
    ++ str
    ++ text "\n"
    ++ text "\nThis is a fatal error.\nSystem halted.\n\n"
    ++ text "Registers:\n"
    ++ text "  EAX: "
    ++ int_text esp.ebx
    ++ text "\n"
    ++ text "  EDX: "
    ++ int_text esp.ecx
    ++ text "\n"
    ++ text "  ECX: "
    ++ int_text esp.edx
    ++ text "\n"
    ++ text "  EBX: "
    ++ int_text esp.eax
    ++ text "\n"

unfoldable pub frame_text : Frame → List ℕ
frame_text f =
    text "EIP: "
    ++ int_text f.ip
    ++ text "\n"
    ++ text "CS: "
    ++ int_text f.cs
    ++ text "\n"
    ++ text "SS: "
    ++ int_text f.ss
    ++ text "\n"

abbrev pub herr_color_attribute : ℕ
herr_color_attribute = 0x4C

abbrev pub default_color : ℕ
default_color = 0x1E

-- `setColorAttribute(HERR_COLOR_ATTRIBUTE); clearScr();`
abbrev pub wipe : System → System
wipe s = with_console s (clear_scr (set_color_attribute (console_of s) herr_color_attribute))

-- `print("Last process: "); print(processes[schedulerProcessAt].name); printChar('\n');`
unfoldable pub last_process : System → List ℕ
last_process s =
    text "Last process: " ++ (s.kernel.processes s.kernel.scheduler_process_at).name ++ text "\n"

-- `herr`, which never returns: the state that it halts in.
unfoldable pub herr : ℕ → Environment → (str : List ℕ) → Stack → System → Option System
unfolding report_text last_process
herr fuel env str esp s =
    let s₁ = wipe (enable_text env s) in
    elim (say fuel (report_text str esp ++ last_process s₁) s₁) [
      | none ↦ none
      | some s₂ ↦
          let s₃ = log (text "[Herr]: System stopped due to a kernel panic.\n") s₂ in
          some (with_console s₃ (disable_cursor (console_of s₃)))
    ]

unfoldable pub int_herr_report : ℕ → (str : List ℕ) → Stack → Frame → System → Option Ending
unfolding report_text frame_text last_process
int_herr_report fuel str esp f s =
    let s₁ =
      log
        (text "[Herr]: System stopped due to a kernel panic.\n[Herr]: Error message: "
          ++ str
          ++ text "\n")
        (wipe s) in
    elim (say fuel (report_text str esp ++ frame_text f) s₁) [
      | none ↦ none
      | some s₂ ↦
          if f.cs == 0x07
          then (let s₃ = record s₂ { kernel = kill s₂.kernel s₂.kernel.scheduler_process_at } in
              some (
                Ending.resumed (with_console s₃ (set_color_attribute (console_of s₃) default_color))
                  (record f { ss = 0x0F })))
          else elim (say fuel (last_process s₂) s₂) [
            | none ↦ none
            | some s₃ ↦ some (Ending.halted (with_console s₃ (disable_cursor (console_of s₃))))
          ]
    ]

-- The message of each handler that reports; the two for debugging print or send theirs.
unfoldable pub message : Handler → List ℕ
message Handler.divid_err = text "Division by 0"
message Handler.debug_err = text "Debug!\n"
message Handler.nm_int_err = text "Non maskable interrupt"
message Handler.break_err = text "[Break]: Breakpoint hit\n"
message Handler.overflow_err = text "Overflow"
message Handler.bounds_check_err = text "Bounds check"
message Handler.invalid_opcode_err = text "Invalid opcode"
message Handler.dev_not_avail_err = text "Device not available"
message Handler.double_fault_err = text "Double fault"
message Handler.coproc_seg_overrun_err = text "Coprocessor segment overrun"
message Handler.invalid_tss_err = text "Invalid TSS"
message Handler.seg_not_present_err = text "Segment not present"
message Handler.stack_fault_err = text "Stack fault"
message Handler.gen_prot_fault_err = text "General protection fault"
message Handler.page_fault_err = text "Page fault"
message Handler.reserved_err = text "Unknown (Reserved)"
message Handler.fpu_err = text "FPU Error"
message Handler.align_check_err = text "Alignment check"
message Handler.machine_check_err = text "Machine check"
message Handler.simd_err = text "SIMD Floating-Point Exception"
message h = []

-- DS and ES.
pub record Selectors : Type 0 where
  pub ds : ℕ
  pub es : ℕ

-- The two handlers for debugging: one prints its text, the other sends it.
abbrev pub debugs : ℕ → Handler → Frame → System → Option Ending
debugs fuel Handler.debug_err f s = elim (say fuel (message Handler.debug_err) s) [
  | none ↦ none
  | some s' ↦ some (Ending.resumed s' f)
]
debugs fuel h f s = some (Ending.resumed (log (message h) s) f)

-- What a handler does between the loads of the segment registers.
abbrev pub handle_body : ℕ → Handler → Stack → Frame → System → Option Ending
handle_body fuel h esp f s =
    if reports h then int_herr_report fuel (message h) esp f s else debugs fuel h f s

-- A handler, for the frame that the processor pushed and the error code, if it has one: both registers are 0x10 while it runs, and 0x0F when it returns.
unfoldable pub handle :
    ℕ → Handler → Stack → (code : ℕ) → Frame → System → Option (Ending × Selectors)
unfolding int_herr_report message
handle fuel h esp code f s = elim (handle_body fuel h esp (frame_seen h code f) s) [
  | none ↦ none
  | some (Ending.resumed s' f') ↦ some (Ending.resumed s' f', record { ds = 0x0F; es = 0x0F })
  | some (Ending.halted s') ↦ some (Ending.halted s', record { ds = 0x10; es = 0x10 })
]
