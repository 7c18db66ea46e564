-- ===== src/World/Tests.antt =====
-- Tests of the kernel as a whole: a process writes to the memory, switches the keyboard's layout and moves the
-- mouse, and the timer ticks.
use acky.Base.{add32, ◌≡◌, ◌+◌, ◌*◌, ◌≤◌, refl, arith, false, [], some, update}
use acky.Process.Sample.{three-IsCoherent}
use acky.Mouse.{ps2_mouse_isr}
use acky.Pit.{pit_isr}
use acky.Pit.Tests.{pushed, frame, zero_regs}
use acky.Syscall.{sret_success, Reply, with_ram, sc_ch_layout}
use acky.Syscall.Dispatch.{Registers, sys_call}
use acky.Syscall.Tests.{system, env}
use acky.World.{
  World, kernel_of, with_kernel, with_mouse, mouse_of, machine_of, runs, calls, moves, ticks, Run,
  start, later,
}
use acky.World.Places.{IsHealthy}
use acky.World.Reach.{Run-IsHealthy, Run-Disjoint}

abbrev pub world : World
world = record {
  system = system;
  mouse_cycle = 0;
  mouse_byte = λ i. 0;
  mouse_x = 0;
  mouse_y = 0;
  proc_regs = zero_regs;
  can_preempt = false;
}

world-IsHealthy : IsHealthy (kernel_of world)
world-IsHealthy = record {
  coherent = three-IsCoherent;
  in_table = omega arith;
  queues = λ j h. omega arith;
}

abbrev wrote : World
wrote = record world { system = with_ram system (update system.kernel.memory.ram 0x3000 7) }

-- `SC_CHLAYOUT` with 0.
abbrev options : Registers
options = record { eax = 12; ebx = 0; ecx = 0; edx = 0 }

abbrev called : World
called = record wrote {
  system = record wrote.system { keys = record wrote.system.keys { layout = false } };
}

called_lem : sys_call 1 env options wrote.system ≡ some (Reply.returned sret_success called.system)
unfolding sys_call sc_ch_layout
called_lem = refl

-- The first byte of a packet.
abbrev moved : World
moved = with_mouse called (ps2_mouse_isr [] 0x08 (mouse_of called))

abbrev ticked : World
ticked = with_kernel moved (record moved.system.kernel { tick = add32 moved.system.kernel.tick 1 })

ticked_lem :
    pit_isr 0 0x11000 0x202 pushed (machine_of moved frame)
    ≡ some (record (machine_of moved frame) {
      kernel = record moved.system.kernel { tick = add32 moved.system.kernel.tick 1 };
    })
unfolding pit_isr
ticked_lem = refl

abbrev run : Run world ticked
run =
    later
      (later
        (later (later start (runs (update system.kernel.memory.ram 0x3000 7) refl)) (
          calls 1 env options (Reply.returned sret_success called.system) called.system
            (λ e. absurd (omega (arith, e))) called_lem refl refl))
        (moves [] 0x08 refl))
      (ticks 0 0x11000 0x202 pushed frame _ ticked_lem refl)

Run-Disjoint_example :
    (0x300000 + 100 * 1 + 100 ≤ 0x300000 + 100 * 2) × (0x300000 ≤ 0x300000 + 100 * 1)
unfolding ps2_mouse_isr
Run-Disjoint_example = Run-Disjoint world ticked 1 2 run world-IsHealthy (omega arith) (omega arith)

Run-IsHealthy_example : IsHealthy (kernel_of ticked)
Run-IsHealthy_example = Run-IsHealthy world ticked run world-IsHealthy
