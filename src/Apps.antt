-- ===== src/Apps.antt =====
-- The small programs of user/apps: procinfo.c, twrite.c, pstate.c and start.c. The calls to the kernel are
-- recorded in order; the answers of the kernel and the keys that are typed are arguments.
mod Tests
pub mod Table
use acky.Base.{
  ℕ, zero, suc, ◌+◌, ◌-◌, if◌then◌else◌, ◌==◌, ◌&&◌, not, Option, none, some, Bool, true, false,
  List, [], ◌∷◌, ◌++◌, text, length,
}
use acky.Decimal.{int_to_str}
use acky.Fs.{text_at}

-- The calls that the programs make.
pub data Call : Type 0 where
  print : List ℕ → Call
  get_input : (size : ℕ) → Call
  spawn_process : List ℕ → Call
  get_proc_count : Call
  get_proc_pid_from_idx : ℕ → Call
  get_proc_info : (pid : ℕ) → Call
  shutdown : Call
  reboot : Call
  clear_scr : Call
  exit : Call

-- `procInfo`.
pub record ProcInfo : Type 0 where
  pub name : List ℕ
  pub mem_usage : ℕ
  pub pid : ℕ

-- The text that `intToStr` of procinfo.c leaves, the same loops as those of foki/vga.c.
unfoldable pub number : ℕ → List ℕ
unfolding int_to_str
number num = text_at (int_to_str num (λ i. 0)) 0 20

-- `for (j = 0; j < n; j++) print(" ");`
abbrev pub spaces : ℕ → List Call
spaces zero = []
spaces (suc n) = print (text " ") ∷ spaces n

-- The line of one process.
unfoldable pub process_line : ProcInfo → List Call
unfolding number
process_line info =
    let pid = number info.pid in
    (print info.name ∷ spaces (32 - length info.name))
    ++ (print pid ∷ spaces (20 - length pid))
    ++ (print (number info.mem_usage) ∷ print (text "B\n") ∷ [])

-- The loop over the processes, from `i` on.
unfoldable pub process_lines : (info : ℕ → ProcInfo) → (i left : ℕ) → List Call
unfolding process_line
process_lines info i zero = []
process_lines info i (suc left) =
    (get_proc_pid_from_idx i ∷ get_proc_info (info i).pid ∷ process_line (info i))
    ++ process_lines info (i + 1) left

-- `main` of procinfo.c, for `count` processes.
unfoldable pub procinfo : (count : ℕ) → (info : ℕ → ProcInfo) → List Call
unfolding process_lines
procinfo count info =
    (print (
        text "Name                            PID                 Memory usage\n"
        ++ text "----------------------------------------------------------------\n")
      ∷ get_proc_count
      ∷ [])
    ++ process_lines info 1 (count - 1)
    ++ (exit ∷ [])

-- `cmpstr` of two texts gives 0.
abbrev pub same_text : List ℕ → List ℕ → Bool
same_text [] [] = true
same_text [] (d ∷ ds) = false
same_text (c ∷ cs) [] = false
same_text (c ∷ cs) (d ∷ ds) = c == d && same_text cs ds

-- What TWrite does with the text behind `c:`; the loop ends with `exit`.
unfoldable pub twrite_command : List ℕ → List Call
twrite_command command =
    if same_text command (text "exit")
    then exit ∷ []
    else if same_text command (text "cls")
    then clear_scr ∷ []
    else if same_text command (text "help")
    then print (
        text "### Terminal Write - Help menu ###\n"
        ++ text "c:help - Display the help menu\n"
        ++ text "c:exit - Exit TWrite\n"
        ++ text "c:cls  - Clear the screen\n")
      ∷ []
    else print (text "Error: Unknown command \"") ∷ print command ∷ print (text "\"\n") ∷ []

-- One round of the loop of twrite.c, for the text that is typed.
unfoldable pub twrite : List ℕ → List Call
unfolding twrite_command
twrite (c ∷ d ∷ command) =
    get_input 80 ∷ (if c == b'c' && d == b':' then twrite_command command else [])
twrite input = get_input 80 ∷ []

-- The round of pstate.c for one key; the machine stays in a loop behind `shutdown`.
unfoldable pub choose : (key : ℕ) → List Call
choose key =
    if key == b'1'
    then print (text "Shutting down...\n") ∷ shutdown ∷ []
    else if key == b'2'
    then print (text "Rebooting...\n") ∷ reboot ∷ exit ∷ []
    else if key == b'3'
    then print (text "Exiting...\n") ∷ exit ∷ []
    else print (text "Invalid option.\n") ∷ []

-- `main` of pstate.c for the keys that are typed; `none` while it waits for another one.
unfoldable pub pstate : List ℕ → Option (List Call)
unfolding choose
pstate [] = none
pstate (key ∷ keys) =
    let asked : List Call =
      print (text "Choose an option:\n1. Shutdown\n2. Reboot\n3. Never mind\n> ")
      ∷ get_input 2
      ∷ choose key in
    let rest = pstate keys in
    if not (key == b'1') && not (key == b'2') && not (key == b'3')
    then elim rest [ none ↦ none | some calls ↦ some (asked ++ calls) ]
    else some asked

-- `main` of start.c, for the path that is typed and what `spawnProcess` returns.
unfoldable pub start_program : List ℕ → (result : ℕ) → List Call
start_program path result =
    (print (text "Enter the path of the program to run: ") ∷ get_input 32 ∷ spawn_process path ∷ [])
    ++ (if result == 1 then print (text "An error occurred\n") ∷ exit ∷ [] else exit ∷ [])
