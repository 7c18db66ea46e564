-- ===== src/Mouse/Tests.antt =====
-- Tests of the mouse interrupt, and its theorems at a concrete packet.
use acky.Io.{outb}
use acky.Mouse.Init.{Answers, time_out, init_ps2_mouse, init_ps2_mouse-bounds}
use acky.Base.{◌≤◌, ◌+◌, ◌*◌, ◌≡◌, refl, arith, some, [], ◌∷◌, ◌++◌}
use acky.Process.{get_process_index_from_pid}
use acky.Process.Queue.{Delivered}
use acky.Process.Sample.{three}
use acky.Mouse.{Mouse, mouse_mov_msg}
use acky.Mouse.Packet.{ps2_mouse_isr_all, ps2_mouse_isr-Delivered}

-- Process 1 owns the screen.
abbrev owned : Mouse
owned = record {
  mouse_cycle = 0;
  mouse_byte = λ i. 0;
  mouse_x = 0;
  mouse_y = 0;
  owner_pid = 11;
  kernel = three;
}

owner_found : get_process_index_from_pid three 11 ≡ some 1
unfolding get_process_index_from_pid
owner_found = refl

ps2_mouse_isr-Delivered_example :
    let m' = ps2_mouse_isr_all [] ((7 ∷ []) ++ (9 ∷ 250 ∷ 3 ∷ [])) owned in
    (m'.mouse_cycle ≡ 0)
    × Delivered three 1 (record { from_pid = 0; msg = mouse_mov_msg 250 3 9 [] }) m'.kernel
ps2_mouse_isr-Delivered_example =
    ps2_mouse_isr-Delivered [] (7 ∷ []) 9 250 3 1 owned refl (refl, tt) (omega arith) (omega arith)
      owner_found (omega arith)

-- A controller that never answers.
abbrev pub mute : Answers
mute = record { status = λ i. 2; bytes = λ i. 0x45 }

init_ps2_mouse-bounds_example :
    ((init_ps2_mouse mute (record { statuses = 0; reads = 0; ports = [] })).statuses
      ≤ 0 + 17 * time_out)
    × ((init_ps2_mouse mute (record { statuses = 0; reads = 0; ports = [] })).reads ≡ 0 + 5)
    × ((init_ps2_mouse mute (record { statuses = 0; reads = 0; ports = [] })).ports ≡ (
        outb 0x60 0xF4
        ∷ outb 0x64 0xD4
        ∷ outb 0x60 200
        ∷ outb 0x64 0xD4
        ∷ outb 0x60 0xF3
        ∷ outb 0x64 0xD4
        ∷ outb 0x60 0xF6
        ∷ outb 0x64 0xD4
        ∷ outb 0x60 0x47
        ∷ outb 0x64 0x60
        ∷ outb 0x64 0x20
        ∷ outb 0x64 0xA8
        ∷ []))
init_ps2_mouse-bounds_example =
    init_ps2_mouse-bounds mute (record { statuses = 0; reads = 0; ports = [] })
