-- ===== src/Shell.antt =====
-- The shell of user/apps/shell.c. The calls to the kernel are recorded in order; what the kernel answers is an
-- argument: the keys that `getInput` puts into a buffer, what `spawnProcess` returns and how often
-- `processRunning` says that the child runs. A loop without a bound takes fuel, and `none` means that it still
-- runs.
mod Tests
pub mod Path
use acky.Base.{
  ℕ, zero, suc, ◌+◌, if◌then◌else◌, ◌==◌, leb, update, not, ◌&&◌, Option, none, some, Bool, true,
  false, List, [], ◌∷◌, ◌++◌, text,
}
use acky.Base.Int.{ℤ, pos, sub_ℕ, eq_ℤ}
use acky.Fs.{text_at}

abbrev pub input_buffer_size : ℕ
input_buffer_size = 32

-- A text in an array, with its NUL.
abbrev pub put_text : (ℕ → ℕ) → (at : ℕ) → List ℕ → ℕ → ℕ
put_text b at [] = update b at 0
put_text b at (c ∷ cs) = put_text (update b at c) (at + 1) cs

-- The calls that the shell makes.
pub data Call : Type 0 where
  print : List ℕ → Call
  get_input : (size : ℕ) → Call
  change_layout : ℕ → Call
  clear_scr : Call
  spawn_process : List ℕ → Call
  process_running : (pid : ℕ) → Call

-- `cmpstr`, from the cell `i` on.
unfoldable pub cmpstr : ℕ → (s1 s2 : ℕ → ℕ) → ℕ → Option ℤ
cmpstr zero s1 s2 i = none
cmpstr (suc fuel) s1 s2 i =
    let rest = cmpstr fuel s1 s2 (i + 1) in
    if not (s1 i == 0) && s1 i == s2 i then rest else some (sub_ℕ (s1 i) (s2 i))

-- `cmpstr(uinput, "...") == 0`.
unfoldable pub is_text : ℕ → (ℕ → ℕ) → List ℕ → Option Bool
unfolding cmpstr
is_text fuel uinput str = elim (cmpstr fuel uinput (put_text (λ i. 0) 0 str) 0) [
  | none ↦ none
  | some d ↦ some (eq_ℤ d (pos 0))
]

-- `for (; uinput[uinputSize] != '\0'; uinputSize++);`, from `i` on.
unfoldable pub input_size : ℕ → (ℕ → ℕ) → ℕ → Option ℕ
input_size zero uinput i = none
input_size (suc fuel) uinput i =
    let rest = input_size fuel uinput (i + 1) in if uinput i == 0 then some i else rest

-- `for (i = 0; i <= uinputSize; i++) uinput[i + 11] = uinput[i];`, from `i` on.
unfoldable pub move_up : (ℕ → ℕ) → (i left : ℕ) → ℕ → ℕ
move_up uinput i zero = uinput
move_up uinput i (suc left) = move_up (update uinput (i + 11) (uinput i)) (i + 1) left

-- `for (i = 0; i < 11; i++) uinput[i] = progdatPath[i];`, for the cells of the list.
unfoldable pub put_path : (ℕ → ℕ) → (i : ℕ) → List ℕ → ℕ → ℕ
put_path uinput i [] = uinput
put_path uinput i (c ∷ cs) = put_path (update uinput i c) (i + 1) cs

abbrev pub progdat_path : List ℕ
progdat_path = text "A:/PROGDAT/"

-- The two loops that put the path in front of the name, of `uinput_size` bytes.
unfoldable pub append_path : (ℕ → ℕ) → (uinput_size : ℕ) → ℕ → ℕ
unfolding move_up put_path
append_path uinput uinput_size = put_path (move_up uinput 0 (uinput_size + 1)) 0 progdat_path

-- The text of the buffer up to its NUL, or its first `fuel` bytes. The cells from 32 on are what lies behind
-- the buffer.
abbrev pub typed : ℕ → (ℕ → ℕ) → List ℕ
typed fuel uinput = text_at uinput 0 fuel

-- `while (processRunning(childPID));`, which says so `times` times.
unfoldable pub wait_for : (pid times : ℕ) → List Call
wait_for pid zero = process_running pid ∷ []
wait_for pid (suc times) = process_running pid ∷ wait_for pid times

abbrev pub sret_error : ℕ
sret_error = 1

-- What the kernel answers to one command: the pid or the error of the first and of the second attempt to start
-- it, and how long the child runs.
pub record Answers : Type 0 where
  pub first : ℕ
  pub second : ℕ
  pub runs : ℕ

-- From `skipIf` on: the calls, and the buffer at the next input.
unfoldable pub run_typed : ℕ → Answers → (ℕ → ℕ) → Option (List Call × (ℕ → ℕ))
unfolding append_path wait_for
run_typed fuel a uinput =
    let first = spawn_process (typed fuel uinput) in
    if not (a.first == sret_error)
    then some (first ∷ wait_for a.first a.runs, update uinput 0 0)
    else elim (input_size fuel uinput 0) [
      | none ↦ none
      | some size ↦
          if leb input_buffer_size (size + 11)
          then some (
            first ∷ print (text "[!!]: Could not append the PROGDAT path, buffer too small\n") ∷ [],
            uinput,
          )
          else (let found = append_path uinput size in
              let second = spawn_process (typed fuel found) in
              some (
                first
                    ∷ second
                    ∷ (if a.second == sret_error
                        then print (text "[!!]: Not found/Invalid executable\n") ∷ []
                        else wait_for a.second a.runs),
                update found 0 0,
              ))
    ]

-- One round of the loop, for the buffer that `getInput` leaves.
unfoldable pub command : ℕ → Answers → (username : List ℕ) → (ℕ → ℕ) → Option (List Call × (ℕ → ℕ))
unfolding cmpstr run_typed
command fuel a username uinput =
    let prompt : List Call =
      print username ∷ print (text "@Acky> ") ∷ get_input input_buffer_size ∷ [] in
    if uinput 0 == 0 then some (prompt, uinput) else elim (is_text fuel uinput (text "cls")) [
      | none ↦ none
      | some true ↦ some (prompt ++ (clear_scr ∷ []), update uinput 0 0)
      | some false ↦ elim (is_text fuel uinput (text "help")) [
        | none ↦ none
        | some true ↦ some (prompt ++ (print (text "Good luck\n:3\n") ∷ []), update uinput 0 0)
        | some false ↦ elim (run_typed fuel a uinput) [
          | none ↦ none
          | some (calls, b) ↦ some (prompt ++ calls, b)
        ]
      ]
    ]

-- The choice of the layout for the first key of each input: the calls up to a valid one.
unfoldable pub select_layout : List ℕ → Option (List Call)
select_layout [] = none
select_layout (key ∷ keys) =
    let asked : List Call =
      print (text "Select the keyboard layout (1: FR, AZERTY; 2: UK, QWERTY): ")
      ∷ get_input 2
      ∷ [] in
    let rest = select_layout keys in
    if key == b'1'
    then some (asked ++ (change_layout 0 ∷ []))
    else if key == b'2'
    then some (asked ++ (change_layout 1 ∷ []))
    else elim rest [
      | none ↦ none
      | some calls ↦ some (asked ++ (print (text "[!!]: Invalid layout selection\n") ∷ calls))
    ]

-- The name of the user, `user` if none is typed.
unfoldable pub user_name : List ℕ → List ℕ
user_name [] = text "user"
user_name (c ∷ cs) = c ∷ cs

-- `main` up to its endless loop, for the keys typed at the choice of the layout.
unfoldable pub start : List ℕ → Option (List Call)
unfolding select_layout
start keys = elim (select_layout keys) [
  | none ↦ none
  | some calls ↦ some (calls ++ (print (text "Enter your username: ") ∷ get_input 10 ∷ []))
]
