-- ===== src/Shell/Tests.antt =====
-- Tests of the shell, and its theorems at two names.
use acky.Base.{
  ℕ, ◌+◌, ◌%◌, ◌<◌, ◌≤◌, ◌≡◌, ◌≢◌, refl, arith, ltb, if◌then◌else◌, some, none, Option, List, [],
  ◌∷◌, ◌++◌, text,
}
use acky.Shell.{
  Answers, Call, print, get_input, change_layout, spawn_process, process_running, put_text,
  append_path, typed, run_typed, command, cmpstr, is_text, input_size, select_layout, start,
  wait_for,
}
use acky.Shell.Path.{run_typed-second, append_path-garbled}

abbrev edit : ℕ → ℕ
edit = put_text (λ i. 0) 0 (text "edit")

abbrev long_name : ℕ → ℕ
long_name i = if ltb i 12 then b'a' + i else 0

abbrev missing : Answers
missing = record { first = 1; second = 14; runs = 2 }

edit_letters : (i : ℕ) → i < 4 → edit i ≢ 0
edit_letters i h = ground arith

run_typed-second_example :
    (b : ℕ → ℕ) × (run_typed 32 missing edit
      ≡ some (
        spawn_process (typed 21 edit)
            ∷ spawn_process (text "A:/PROGDAT/" ++ typed 21 edit)
            ∷ wait_for 14 2,
        b,
      ))
    × (b 0 ≡ 0)
run_typed-second_example =
    run_typed-second 21 4 missing edit (omega arith) (omega arith) refl edit_letters refl

long_name_letters : (i : ℕ) → i < 12 → long_name i ≢ 0
long_name_letters i h = ground arith

append_path-garbled_example :
    ((k : ℕ) → k ≤ 12 → append_path long_name 12 (k + 11) ≡ long_name (k % 11))
    × ((j : ℕ) → j ≤ 12 + 11 → append_path long_name 12 j ≢ 0)
append_path-garbled_example = append_path-garbled 12 long_name (omega arith) long_name_letters

keys_2 :
    start (b'x' ∷ b'2' ∷ [])
    ≡ some (
        print (text "Select the keyboard layout (1: FR, AZERTY; 2: UK, QWERTY): ")
        ∷ get_input 2
        ∷ print (text "[!!]: Invalid layout selection\n")
        ∷ print (text "Select the keyboard layout (1: FR, AZERTY; 2: UK, QWERTY): ")
        ∷ get_input 2
        ∷ change_layout 1
        ∷ print (text "Enter your username: ")
        ∷ get_input 10
        ∷ [])
unfolding start select_layout
keys_2 = refl

calls_of : Option (List Call × (ℕ → ℕ)) → Option (List Call)
calls_of none = none
calls_of (some (calls, b)) = some calls

-- The second attempt finds the program, as process 12.
abbrev edit_calls : List Call
edit_calls =
    print (text "user")
    ∷ print (text "@Acky> ")
    ∷ get_input 32
    ∷ spawn_process (text "edit")
    ∷ spawn_process (text "A:/PROGDAT/edit")
    ∷ process_running 12
    ∷ process_running 12
    ∷ []

edit_runs :
    calls_of (command 40 (record { first = 1; second = 12; runs = 1 }) (text "user") edit)
    ≡ some edit_calls
unfolding calls_of command run_typed cmpstr is_text input_size append_path wait_for
edit_runs = refl
