-- ===== src/Syscall/Dispatch.antt =====
-- `sysCall`: the switch over the number of the call in EAX, as in `enum syscalls`.
use acky.Base.{ℕ, if◌then◌else◌, ◌==◌, Option, some}
use acky.Syscall.{
  System, Environment, Reply, sret_error, sc_print_char, sc_get_u_input, sc_is_proc_running,
  sc_clear_scr, sc_get_porc_num, sc_get_proc_pid_from_idx, sc_ch_layout, sc_serial_send, sc_ch_pwr,
}
use acky.Syscall.Tasks.{sc_spawn_proc, sc_exit, sc_get_proc_info, sc_msg}
use acky.Syscall.Screen.{sc_graphics}
use acky.Syscall.Files.{sc_load_file, sc_get_file_info}

-- The registers of the call.
pub record Registers : Type 0 where
  pub eax : ℕ
  pub ebx : ℕ
  pub ecx : ℕ
  pub edx : ℕ

unfoldable pub sys_call : ℕ → Environment → Registers → System → Option Reply
sys_call fuel env options s =
    let eax = options.eax in
    let ebx = options.ebx in
    let ecx = options.ecx in
    if eax == 0
    then sc_print_char fuel ebx s
    else if eax == 1
    then some (sc_get_u_input ebx ecx s)
    else if eax == 2
    then sc_spawn_proc fuel env ebx s
    else if eax == 3
    then some (sc_exit env s)
    else if eax == 4
    then some (sc_is_proc_running ebx s)
    else if eax == 5
    then some (sc_clear_scr s)
    else if eax == 6
    then some (sc_get_porc_num s)
    else if eax == 7
    then some (sc_get_proc_info ebx ecx s)
    else if eax == 8
    then some (sc_get_proc_pid_from_idx ebx s)
    else if eax == 9
    then some (sc_serial_send ebx s)
    else if eax == 10
    then sc_ch_pwr fuel env ebx s
    else if eax == 11
    then some (sc_msg ebx ecx options.edx s)
    else if eax == 12
    then some (sc_ch_layout ebx s)
    else if eax == 13
    then sc_graphics fuel env ebx ecx s
    else if eax == 14
    then sc_load_file fuel env ebx ecx s
    else if eax == 15
    then sc_get_file_info fuel env ebx ecx s
    else some (Reply.returned sret_error s)
