-- ===== src/Syscall/Tasks.antt =====
-- The system calls on processes: their start and end, what is known of one, and their messages.
use acky.Base.{
  ℕ, if◌then◌else◌, ◌==◌, add32, Option, none, some, false, [], ◌∷◌, ◌++◌, done, halted,
}
use acky.Process.{kill, get_process_index_from_pid, send_message_to_process, pop_message}
use acky.Gdt.{Descriptors, set_ldt_entry}
use acky.Loader.{spawn_process}
use acky.Syscall.{
  System, Environment, Reply, sret_success, sret_error, ram_of, with_ram, caller, is_invalid,
  user_address,
}
use acky.Syscall.Bytes.{text_in, store_bytes, dword_bytes, proc_msg_at}

unfoldable pub sc_spawn_proc : ℕ → Environment → (ebx : ℕ) → System → Option Reply
sc_spawn_proc fuel env ebx s =
    if is_invalid s ebx
    then some (Reply.returned sret_error s)
    else elim (text_in fuel (ram_of s) (user_address s ebx)) [
      | none ↦ none
      | some path ↦
          elim (spawn_process fuel env.storage env.stale s.drives path env.stale_info s.kernel) [
            | none ↦ none
            | some (halted p) ↦ some (Reply.stopped p)
            | some (done (new_pid, k)) ↦ some (
                Reply.returned (if new_pid == 0 then sret_error else new_pid)
                  (record s { kernel = k }))
          ]
    ]

-- The segments that the loop for the next interrupt runs in.
abbrev pub wait_segments : (wait_addr : ℕ) → Descriptors → Descriptors
wait_segments wait_addr ldt =
    set_ldt_entry (set_ldt_entry ldt 0 wait_addr 0x1000 0xFA 0xCF) 1 wait_addr 0x1000 0xF2 0xCF

unfoldable pub sc_exit : Environment → System → Reply
sc_exit env s = Reply.to_wait (record s {
  kernel = kill s.kernel (caller s).pid;
  save_regs = false;
  segments = record s.segments { current_ldt = wait_segments env.wait_addr s.segments.current_ldt };
})

-- `userProcInfo`: 32 bytes for the name, of which `strcpy` writes the text and its NUL, the memory
-- size and the pid.
unfoldable pub sc_get_proc_info : (ebx ecx : ℕ) → System → Reply
sc_get_proc_info ebx ecx s =
    if is_invalid s ebx
    then Reply.returned sret_error s
    else elim (get_process_index_from_pid s.kernel ecx) [
      | none ↦ Reply.returned sret_error s
      | some idx ↦
          let p = s.kernel.processes idx in
          let info = user_address s ebx in
          let m₁ = store_bytes (ram_of s) (add32 info 36) (dword_bytes p.pid) in
          let m₂ = store_bytes m₁ (add32 info 32) (dword_bytes p.mem_size) in
          Reply.returned sret_success (with_ram s (store_bytes m₂ info (p.name ++ (0 ∷ []))))
    ]

-- The message is sent from the memory of the process, where its `fromPID` is overwritten.
unfoldable pub sc_msg_send : (ecx edx : ℕ) → System → Reply
sc_msg_send ecx edx s =
    if is_invalid s ecx
    then Reply.returned sret_error s
    else (let msg = user_address s ecx in
        let (ok, sent, k) = send_message_to_process s.kernel edx (proc_msg_at (ram_of s) msg) in
        if ok
        then Reply.returned sret_success (
            let s' = record s { kernel = k } in
            with_ram s' (store_bytes (ram_of s') msg (dword_bytes sent.from_pid)))
        else Reply.returned sret_error (record s { kernel = k }))

unfoldable pub sc_msg_pop : (ecx : ℕ) → System → Reply
sc_msg_pop ecx s =
    if is_invalid s ecx
    then Reply.returned sret_error s
    else (let (oldest, k) = pop_message s.kernel in
        let s' = record s { kernel = k } in
        let cpy_to = user_address s ecx in
        elim oldest [
          | none ↦ Reply.returned sret_error s'
          | some message ↦
              let m₁ = store_bytes (ram_of s') cpy_to (dword_bytes message.from_pid) in
              Reply.returned sret_success
                (with_ram s' (store_bytes m₁ (add32 cpy_to 4) message.msg))
        ])

unfoldable pub sc_msg : (ebx ecx edx : ℕ) → System → Reply
sc_msg ebx ecx edx s =
    if ebx == 0
    then sc_msg_send ecx edx s
    else if ebx == 1
    then sc_msg_pop ecx s
    else Reply.returned sret_success s
