-- ===== src/World/Reach.antt =====
-- What holds in every state that the kernel reaches.
use acky.Base.{
  ℕ, ◌+◌, ◌<◌, ◌≤◌, leb, ltb, ◌≡◌, refl, arith, some, sym, Bool, true, false, ◌==◌, if◌then◌else◌,
}
use acky.Alloc.Inv.{end_of}
use acky.Process.Entries.{processes_disjoint}
use acky.Syscall.{
  System, Environment, sret_error, sret_success, Reply, keyboard_of, sc_clear_scr, sc_get_porc_num,
  sc_get_proc_pid_from_idx, sc_ch_layout, sc_serial_send,
}
use acky.Syscall.Dispatch.{Registers, sys_call}
use acky.World.{
  World, HasRoom, kernel_of, mouse_of, machine_of, goes_on, Step, runs, calls, types, moves, ticks,
  faults, Run, start, later,
}
use acky.World.Places.{IsHealthy, IsHealthy-same}
use acky.World.Keyboard.{Every, Every-if, Every-some, Stays, ps2_kbd_isr-Stays}
use acky.World.Calls.{
  Sound, with_ram-IsHealthy, print_char-Sound, get_u_input-Sound, is_proc_running-Sound,
  get_proc_info-Sound, msg-Sound, exit-Sound, ch_pwr-Sound,
}
use acky.World.Spawn.{spawn_proc-Sound, load_file-Sound, get_file_info-Sound, graphics-Sound}
use acky.World.Interrupts.{ps2_mouse_isr-SamePlaces, pit_isr-SamePlaces}
use acky.World.Faulting.{handle-IsHealthy}

Every-when {ℓ κ} :
    {A : Type ℓ} (P : A → Type κ) (c : Bool) (a b : A)
    → (c ≡ true → P a)
    → P b
    → P (if c then a else b)
Every-when P true a b pa pb = pa refl
Every-when P false a b pa pb = pb

-- Each of the sixteen calls, and the default.
sys_call-Sound :
    (fuel : ℕ) (env : Environment) (options : Registers) (s : System)
    → IsHealthy s.kernel
    → (options.eax ≡ 2 → HasRoom fuel env s)
    → Every Sound (sys_call fuel env options s)
unfolding sys_call sc_clear_scr sc_get_porc_num sc_get_proc_pid_from_idx sc_ch_layout sc_serial_send
sys_call-Sound fuel env options s h room =
    let P = Every Sound in
    let eax = options.eax in
    let b = options.ebx in
    let c = options.ecx in
    Every-if P (eax == 0) _ _ (print_char-Sound fuel env s h b) (
      Every-if P (eax == 1) _ _ (get_u_input-Sound fuel env s h b c) (
        Every-when P (eax == 2) _ _
          (λ spawns. spawn_proc-Sound fuel env s h b (room (ground arith)))
          (Every-if P (eax == 3) _ _ (exit-Sound fuel env s h) (
            Every-if P (eax == 4) _ _ (is_proc_running-Sound fuel env s h b) (
              Every-if P (eax == 5) _ _ (with_ram-IsHealthy s.kernel _ h) (
                Every-if P (eax == 6) _ _ h (
                  Every-if P (eax == 7) _ _ (get_proc_info-Sound fuel env s h b c) (
                    Every-if P (eax == 8) _ _
                      (Every-if Sound (leb s.kernel.process_count b) (Reply.returned sret_error s)
                        (Reply.returned (s.kernel.processes b).pid s) h h)
                      (Every-if P (eax == 9) _ _ h (
                        Every-if P (eax == 10) _ _ (ch_pwr-Sound fuel env s h b) (
                          Every-if P (eax == 11) _ _ (msg-Sound fuel env s h b c options.edx) (
                            Every-if P (eax == 12) _ _
                              (Every-if Sound (ltb 1 b) (Reply.returned sret_error s)
                                (Reply.returned sret_success (record s {
                                  keys = record s.keys { layout = if b == 0 then false else true };
                                }))
                                h h)
                              (Every-if P (eax == 13) _ _ (graphics-Sound fuel env s h b c) (
                                Every-if P (eax == 14) _ _ (load_file-Sound fuel env s h b c) (
                                  Every-if P (eax == 15) _ _ (get_file_info-Sound fuel env s h b c)
                                    h)))))))))))))))

goes_on-IsHealthy :
    (reply : Reply) (s' : System) → Sound reply → goes_on reply ≡ some s' → IsHealthy s'.kernel
goes_on-IsHealthy (Reply.returned v s) s' h e = let same : s ≡ s' = ground arith in rw (sym same) h
goes_on-IsHealthy (Reply.to_timer s) s' h e = let same : s ≡ s' = ground arith in rw (sym same) h
goes_on-IsHealthy (Reply.to_wait s) s' h e = let same : s ≡ s' = ground arith in rw (sym same) h
goes_on-IsHealthy (Reply.ended p) s' h e = absurd (ground arith)
goes_on-IsHealthy (Reply.stopped p) s' h e = absurd (ground arith)

Step-IsHealthy : (w w' : World) → Step w w' → IsHealthy (kernel_of w) → IsHealthy (kernel_of w')
Step-IsHealthy w w' (runs m e) h = rw e (with_ram-IsHealthy w.system.kernel m h)
Step-IsHealthy w w' (calls fuel env options reply s' room called on e) h =
    let sound = Every-some Sound _ reply (sys_call-Sound fuel env options w.system h room) called in
    rw e (goes_on-IsHealthy reply s' sound on)
Step-IsHealthy w w' (types fuel beyond scan_code m typed e) h =
    let m₀ = keyboard_of w.system in
    let same = Every-some (Stays m₀) _ m (ps2_kbd_isr-Stays fuel beyond scan_code m₀) typed in
    rw e (
      IsHealthy-same w.system.kernel _
        (record { list = refl; index = refl; count = refl; places = same }) h)
Step-IsHealthy w w' (moves stale byte e) h =
    let same = ps2_mouse_isr-SamePlaces stale byte (mouse_of w) in
    rw e (IsHealthy-same w.system.kernel _ same h)
Step-IsHealthy w w' (ticks fuel trampoline cpu_flags pushed frame m ticked e) h =
    let same = pit_isr-SamePlaces fuel trampoline cpu_flags pushed (machine_of w frame) m ticked in
    rw e (IsHealthy-same w.system.kernel _ same h)
Step-IsHealthy w w' (faults fuel handler esp code frame frame' s' sel handled e) h =
    rw e (handle-IsHealthy fuel handler esp code frame frame' w.system s' sel handled h)

-- If the process table and the block list agree, the table holds at most its 256 processes and no queue more than
-- its 16 messages, then this holds after every sequence of steps, in whatever order the processes write to
-- the memory and make calls, keys are pressed, the mouse moves, the timer ticks and exceptions come,
-- provided that a call which starts a program finds an entry of the table left and room for the program
-- below the end of the address space. The memory that processes and drawings write is
-- taken to lie beside the kernel's tables.
pub Run-IsHealthy : (w w' : World) → Run w w' → IsHealthy (kernel_of w) → IsHealthy (kernel_of w')
Run-IsHealthy w w' start h = h
Run-IsHealthy w w' (later run step) h = Step-IsHealthy _ w' step (Run-IsHealthy w _ run h)

-- After every such sequence of steps, the memories of two different processes do not overlap, and both lie
-- behind the kernel's own block: whatever is started, ends and moves on the way, no two processes
-- share a byte.
pub Run-Disjoint :
    (w w' : World) (i j : ℕ)
    → Run w w'
    → IsHealthy (kernel_of w)
    → i < j
    → j < (kernel_of w').process_count
    → (((kernel_of w').processes i).mem_start + ((kernel_of w').processes i).mem_size
        ≤ ((kernel_of w').processes j).mem_start)
      × (end_of ((kernel_of w').memory.mem_list 1) ≤ ((kernel_of w').processes i).mem_start)
Run-Disjoint w w' i j run h lt listed =
    processes_disjoint (kernel_of w') i j (Run-IsHealthy w w' run h).coherent lt listed
