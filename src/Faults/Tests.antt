-- ===== src/Faults/Tests.antt =====
-- Tests of the exceptions, and their theorem for a division by 0 in a process.
use acky.Base.{◌≡◌, ◌≢◌, ◌⊎◌, refl, some, none}
use acky.Process.{Kernel, kill, get_process_index_from_pid}
use acky.Process.Entries.{IsCoherent}
use acky.Process.Sample.{three, three-IsCoherent}
use acky.Idt.{Handler}
use acky.Pit.{Frame}
use acky.Faults.{int_herr, fault, frame_seen}
use acky.Syscall.{System}
use acky.Syscall.Tests.{system}
use acky.Faults.Report.{Stack, Ending, default_color, handle}
use acky.Faults.Return.{Left, handle-outcomes}
use acky.Faults.Outcomes.{fault-outcomes}

abbrev user_frame : Frame
user_frame = record { ip = 0x100; cs = 0x07; flags = 0x3206; sp = 80; ss = 0x0F }

kernel_halts : fault Handler.page_fault_err three (record user_frame { cs = 0x08 }) ≡ none
unfolding fault int_herr
kernel_halts = refl

fault-outcomes_example :
    ((fault Handler.page_fault_err three user_frame ≡ none) × (user_frame.cs ≢ 0x07))
    ⊎ ((k' : Kernel) × (f' : Frame) × (fault Handler.page_fault_err three user_frame
          ≡ some (k', f'))
        × (f'.ip ≡ 0x100)
        × IsCoherent k'
        × (get_process_index_from_pid three 2 ≡ none → k' ≡ three))
fault-outcomes_example = fault-outcomes Handler.page_fault_err three user_frame three-IsCoherent

abbrev stack : Stack
stack = record { eax = 1; edx = 2; ecx = 3; ebx = 4 }

-- A division by 0 in a process.
handle-outcomes_example :
    ((user_frame.cs ≡ 0x07)
      × (s' : System) × (handle 0 Handler.divid_err stack 0 user_frame system
          ≡ some (
            Ending.resumed s' (record user_frame { ss = 0x0F }),
            record { ds = 0x0F; es = 0x0F },
          ))
      × Left s' (kill three 2)
      × (s'.color_attribute ≡ default_color))
    ⊎ ((user_frame.cs ≢ 0x07)
        × (s' : System) × (handle 0 Handler.divid_err stack 0 user_frame system
            ≡ some (Ending.halted s', record { ds = 0x10; es = 0x10 }))
        × Left s' three)
handle-outcomes_example = handle-outcomes 0 Handler.divid_err stack 0 user_frame system refl refl

-- A page fault in a process at 0x100: what the handler takes for CS is not that of a process.
page_fault_sees : (frame_seen Handler.page_fault_err 5 user_frame).cs ≡ 0x100
page_fault_sees = refl
