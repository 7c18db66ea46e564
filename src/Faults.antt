-- ===== src/Faults.antt =====
-- The processor's exceptions: the handlers of foki/faultHandlers.c and `intHerr` of foki/herr.c. What they
-- print is not kept, and neither are the segment registers.
mod Tests
pub mod Outcomes
pub mod Report
pub mod Forward
pub mod Return
use acky.Base.{ℕ, if◌then◌else◌, ◌==◌, Option, none, some, Bool, true, false}
use acky.Process.{Kernel, kill}
use acky.Idt.{Handler}
use acky.Pit.{Frame}

-- The handlers that call `intHerr`: all but those for debugging.
abbrev pub reports : Handler → Bool
reports Handler.debug_err = false
reports Handler.break_err = false
reports h = true

-- The exceptions for which the processor pushes an error code, below the frame. The exceptions of `reservedErr`,
-- 15 and those from 20 on, are taken to have none.
abbrev pub has_error_code : Handler → Bool
has_error_code Handler.double_fault_err = true
has_error_code Handler.invalid_tss_err = true
has_error_code Handler.seg_not_present_err = true
has_error_code Handler.stack_fault_err = true
has_error_code Handler.gen_prot_fault_err = true
has_error_code Handler.page_fault_err = true
has_error_code Handler.align_check_err = true
has_error_code h = false

-- What a handler with the one parameter `frame` takes for the frame: the words from the last one that was
-- pushed on, which with an error code are this code, EIP, CS, EFLAGS and ESP. They are also what the return
-- from the handler takes off the stack.
abbrev pub frame_seen : Handler → (code : ℕ) → Frame → Frame
frame_seen h code f =
    if has_error_code h
    then record { ip = code; cs = f.ip; flags = f.cs; sp = f.flags; ss = f.sp }
    else f

-- `none` is the loop that halts. `kill` gets the index of the process, where it takes a pid.
unfoldable pub int_herr : Kernel → Frame → Option (Kernel × Frame)
int_herr k f =
    if f.cs == 0x07 then some (kill k k.scheduler_process_at, record f { ss = 0x0F }) else none

-- `f` is the frame as the handler sees it.
unfoldable pub fault : Handler → Kernel → Frame → Option (Kernel × Frame)
unfolding int_herr
fault h k f = if reports h then int_herr k f else some (k, f)
