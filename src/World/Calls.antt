-- ===== src/World/Calls.antt =====
-- Every system call leaves the kernel healthy.
use acky.Base.{ℕ, ◌%◌, ◌^◌, refl, inl, inr, true, ◌==◌, update, Bool-cases, Option-cases}
use acky.Ram.{Ram}
use acky.Process.{Kernel, get_process_index_from_pid, send_message_to_process, pop_message}
use acky.Console.{print_char}
use acky.Acpi.{shutdown, reboot}
use acky.Syscall.{
  System, Environment, Reply, ram_of, console_of, caller, is_invalid, user_address, sc_print_char,
  sc_get_u_input, sc_is_proc_running, sc_ch_pwr,
}
use acky.Syscall.Tasks.{sc_exit, sc_get_proc_info, sc_msg, sc_msg_send, sc_msg_pop}
use acky.Syscall.Bytes.{proc_msg_at}
use acky.World.Places.{
  IsHealthy, SamePlace-refl, SamePlace-update, IsHealthy-same, send_message_to_process-SamePlaces,
  pop_message-SamePlaces, kill-IsHealthy,
}
use acky.World.Keyboard.{Every, Every-if}

-- The kernel that goes on after a call is healthy.
abbrev pub Sound : Reply → Type 0
Sound (Reply.returned v s) = IsHealthy s.kernel
Sound (Reply.to_timer s) = IsHealthy s.kernel
Sound (Reply.to_wait s) = IsHealthy s.kernel
Sound (Reply.ended p) = Unit
Sound (Reply.stopped p) = Unit

-- Writing to the memory.
pub with_ram-IsHealthy :
    (k : Kernel) (m : Ram)
    → IsHealthy k
    → IsHealthy (record k { memory = record k.memory { ram = m } })
with_ram-IsHealthy k m h =
    IsHealthy-same k (record k { memory = record k.memory { ram = m } })
      (record {
        list = refl;
        index = refl;
        count = refl;
        places = λ j. SamePlace-refl (k.processes j);
      })
      h

module _ (fuel : ℕ) (env : Environment) (s : System) (h : IsHealthy s.kernel) where
  pub print_char-Sound : (ebx : ℕ) → Every Sound (sc_print_char fuel ebx s)
  unfolding sc_print_char
  print_char-Sound ebx = elim (Option-cases (print_char fuel (console_of s) (ebx % 2 ^ 8))) [
    | inl runs ↦ rw (sc_print_char, runs) tt
    | inr (c, printed) ↦ rw (sc_print_char, printed) (with_ram-IsHealthy s.kernel c.ram h)
  ]

  pub get_u_input-Sound : (ebx ecx : ℕ) → Sound (sc_get_u_input ebx ecx s)
  unfolding sc_get_u_input
  get_u_input-Sound ebx ecx = elim (Bool-cases (is_invalid s ebx)) [
    | inl wild ↦ rw (sc_get_u_input, wild) h
    | inr valid ↦
        let at = s.kernel.scheduler_process_at in
        let waits = record (caller s) { waiting = true } in
        rw (sc_get_u_input, valid)
          (IsHealthy-same s.kernel
            (record s.kernel { processes = update s.kernel.processes at waits })
            (record {
              list = refl;
              index = refl;
              count = refl;
              places = λ j.
                  SamePlace-update s.kernel.processes at j waits
                    (record { start = refl; size = refl; queue = λ q. q });
            })
            h)
  ]

  pub is_proc_running-Sound : (ebx : ℕ) → Sound (sc_is_proc_running ebx s)
  unfolding sc_is_proc_running
  is_proc_running-Sound ebx = elim (Option-cases (get_process_index_from_pid s.kernel ebx)) [
    | inl gone ↦ rw (sc_is_proc_running, gone) h
    | inr (idx, found) ↦ rw (sc_is_proc_running, found) h
  ]

  pub get_proc_info-Sound : (ebx ecx : ℕ) → Sound (sc_get_proc_info ebx ecx s)
  unfolding sc_get_proc_info
  get_proc_info-Sound ebx ecx = elim (Bool-cases (is_invalid s ebx)) [
    | inl wild ↦ rw (sc_get_proc_info, wild) h
    | inr valid ↦ elim (Option-cases (get_process_index_from_pid s.kernel ecx)) [
      | inl gone ↦ rw (sc_get_proc_info, valid, gone) h
      | inr (idx, found) ↦ rw (sc_get_proc_info, valid, found) (with_ram-IsHealthy s.kernel _ h)
    ]
  ]

  pub msg_send-Sound : (ecx edx : ℕ) → Sound (sc_msg_send ecx edx s)
  unfolding sc_msg_send
  msg_send-Sound ecx edx = elim (Bool-cases (is_invalid s ecx)) [
    | inl wild ↦ rw (sc_msg_send, wild) h
    | inr valid ↦
        let sent =
          send_message_to_process s.kernel edx (proc_msg_at (ram_of s) (user_address s ecx)) in
        let kept : IsHealthy sent.2 =
          IsHealthy-same s.kernel sent.2
            (send_message_to_process-SamePlaces s.kernel edx
              (proc_msg_at (ram_of s) (user_address s ecx)))
            h in
        rw (sc_msg_send, valid) (Every-if Sound sent.0 _ _ (with_ram-IsHealthy sent.2 _ kept) kept)
  ]

  pub msg_pop-Sound : (ecx : ℕ) → Sound (sc_msg_pop ecx s)
  unfolding sc_msg_pop
  msg_pop-Sound ecx = elim (Bool-cases (is_invalid s ecx)) [
    | inl wild ↦ rw (sc_msg_pop, wild) h
    | inr valid ↦
        let k = (pop_message s.kernel).1 in
        let kept : IsHealthy k = IsHealthy-same s.kernel k (pop_message-SamePlaces s.kernel) h in
        elim (Option-cases (pop_message s.kernel).0) [
          | inl empty ↦ rw (sc_msg_pop, valid, empty) kept
          | inr (message, some_mail) ↦
              rw (sc_msg_pop, valid, some_mail) (with_ram-IsHealthy k _ kept)
        ]
  ]

  pub msg-Sound : (ebx ecx edx : ℕ) → Sound (sc_msg ebx ecx edx s)
  unfolding sc_msg
  msg-Sound ebx ecx edx =
      Every-if Sound (ebx == 0) _ _ (msg_send-Sound ecx edx)
        (Every-if Sound (ebx == 1) _ _ (msg_pop-Sound ecx) h)

  pub exit-Sound : Sound (sc_exit env s)
  unfolding sc_exit
  exit-Sound = kill-IsHealthy s.kernel (caller s).pid h

  pub ch_pwr-Sound : (ebx : ℕ) → Every Sound (sc_ch_pwr fuel env ebx s)
  unfolding sc_ch_pwr
  ch_pwr-Sound ebx = elim (Bool-cases (ebx == 0)) [
    | inl off ↦ elim (Option-cases (shutdown (ram_of s) s.acpi)) [
      | inl stays ↦ rw (sc_ch_pwr, off, stays) h
      | inr (w, ends) ↦ rw (sc_ch_pwr, off, ends) tt
    ]
    | inr on ↦ elim (Bool-cases (ebx == 1)) [
      | inl again ↦ elim (Option-cases (reboot fuel env.kbd_status)) [
        | inl waits ↦ rw (sc_ch_pwr, on, again, waits) tt
        | inr (w, ends) ↦ rw (sc_ch_pwr, on, again, ends) tt
      ]
      | inr other ↦ rw (sc_ch_pwr, on, other) h
    ]
  ]
