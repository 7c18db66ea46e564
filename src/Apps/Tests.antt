-- ===== src/Apps/Tests.antt =====
-- Tests of the small programs, and the theorem of the table at a process.
use acky.Base.{◌+◌, ◌-◌, ◌≡◌, refl, arith, length, some, [], ◌∷◌, text}
use acky.Apps.{
  ProcInfo, print, get_input, reboot, exit, spaces, number, process_line, pstate, choose, twrite,
  twrite_command,
}
use acky.Apps.Table.{printed, process_line-columns}

abbrev init : ProcInfo
init = record { name = text "Init"; mem_usage = 20480; pid = 12345 }

process_line-columns_example :
    (printed (print init.name ∷ spaces (32 - length init.name)) ≡ 32)
    × (printed (process_line init) ≡ 52 + length (number init.mem_usage) + 2)
process_line-columns_example = process_line-columns init (omega arith)

pstate_reboots :
    pstate (b'2' ∷ [])
    ≡ some (
        print (text "Choose an option:\n1. Shutdown\n2. Reboot\n3. Never mind\n> ")
        ∷ get_input 2
        ∷ print (text "Rebooting...\n")
        ∷ reboot
        ∷ exit
        ∷ [])
unfolding pstate choose
pstate_reboots = refl

twrite_exits : twrite (text "c:exit") ≡ get_input 80 ∷ exit ∷ []
unfolding twrite twrite_command
twrite_exits = refl
