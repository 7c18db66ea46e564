-- ===== src/UserLib/Tests.antt =====
-- Tests of the user library: process 2 of the sample, whose pid is 12, draws and asks for a window.
use acky.Base.{ℕ, zero, suc, ◌%◌, ◌^◌, ◌≡◌, refl, arith, add32, update, some, List, [], ◌∷◌, text}
use acky.Process.Sending.{queued}
use acky.Process.{find_pid, get_process_index_from_pid, ProcMsg}
use acky.Process.Sample.{three}
use acky.Graphics.{pixel_at}
use acky.Shell.{put_text}
use acky.Syscall.{System, Environment, Reply, sret_success, ram_of}
use acky.Syscall.Tests.{system, env}
use acky.UserLib.{put_pixel, create_window}
use acky.UserLib.Drawn.{put_pixel-shown}
use acky.UserLib.Window.{window_desc_at, described, create_window-asks}

-- Process 2 owns the screen.
abbrev painter : System
painter = record system { owner_pid = 12 }

put_pixel-shown_example :
    (s' : System) × (put_pixel 1 env 16 5 6 10 20 30 painter
      ≡ some (Reply.returned sret_success s'))
    × (let pixel = pixel_at painter.vbe (5 % 2 ^ 16) (6 % 2 ^ 16) in
        (ram_of s' pixel ≡ 30)
        × (ram_of s' (add32 pixel 1) ≡ 20)
        × (ram_of s' (add32 pixel 2) ≡ 10))
put_pixel-shown_example =
    put_pixel-shown 1 env 16 5 6 10 20 30 painter refl (omega arith) (omega arith)

-- A message of 50 bytes.
abbrev zeros : ℕ → List ℕ
zeros zero = []
zeros (suc n) = 0 ∷ zeros n

abbrev env_50 : Environment
env_50 = record env { stale_msg = zeros 50 }

abbrev clock : ℕ → ℕ
clock = put_text (λ i. 0) 0 (text "Clock")

owner_found : get_process_index_from_pid three 11 ≡ some 1
unfolding get_process_index_from_pid find_pid
owner_found = refl

create_window-asks_example :
    (s' : System) × (msg : ProcMsg) × (create_window 1 env_50
        (1 ∷ 2 ∷ 3 ∷ 4 ∷ [])
        16
        40
        50
        200
        100
        clock
        system
      ≡ some (Reply.returned sret_success s'))
    × (s'.kernel.processes ≡ update three.processes 1 (queued (three.processes 1) msg))
    × (msg.from_pid ≡ 12)
    × (window_desc_at msg.msg ≡ described 40 50 200 100 clock)
create_window-asks_example =
    create_window-asks 1 env_50 1 2 3 4 16 40 50 200 100 clock 5 1 system refl owner_found
      (omega arith) (omega arith) (omega arith) (omega arith) (omega arith) refl
