-- ===== src/Syscall/Mail.antt =====
-- A message from the memory of one process to that of another, through two system calls.
use acky.Base.{
  ℕ, zero, suc, ◌+◌, ◌<◌, ◌≤◌, ◌≡◌, ◌⊎◌, inl, refl, sym, ◌∙◌, ap, arith, u32, false, some, add32,
  List, [], ◌∷◌, ◌++◌, length, update,
}
use acky.Ram.{Ram}
use acky.Process.{
  ProcMsg, process_msg_queue_size, get_process_index_from_pid, send_message_to_process, pop_message,
}
use acky.Process.Queue.{
  mailbox, stamp, Delivered, send_message_to_process-Delivered, pop_message-cons, length-messages,
}
use acky.Syscall.{
  System, Environment, Reply, sret_success, caller, ram_of, with_ram, is_invalid, user_address,
}
use acky.Syscall.Bytes.{bytes_at, store_bytes, dword_bytes, proc_msg_at}
use acky.Syscall.Ownership.{send_message_to_process-SameBut}
use acky.Syscall.Tasks.{sc_msg, sc_msg_send, sc_msg_pop}
use acky.Syscall.Dispatch.{sys_call}

length-bytes_at : (m : Ram) (a n : ℕ) → length (bytes_at m a n) ≡ n
unfolding bytes_at
length-bytes_at m a zero = refl
length-bytes_at m a (suc n) = ap suc (length-bytes_at m (add32 a 1) n)

store_bytes-outside :
    (m : Ram) (a : ℕ) (bs : List ℕ) (x : ℕ)
    → a + length bs < u32
    → (x < a) ⊎ (a + length bs ≤ x)
    → store_bytes m a bs x ≡ m x
unfolding store_bytes
store_bytes-outside m a [] x h away = refl
store_bytes-outside m a (b ∷ bs) x h away =
    let next : add32 a 1 ≡ a + 1 = omega (arith, h) in
    let here : update m a b x ≡ m x = ground arith in
    rw next (
      store_bytes-outside (update m a b) (a + 1) bs x (omega (arith, h)) (omega (arith, away))
      ∙ here)

bytes_at-ext :
    (m m' : Ram) (a n : ℕ)
    → a + n < u32
    → ((x : ℕ) → a ≤ x → x < a + n → m x ≡ m' x)
    → bytes_at m a n ≡ bytes_at m' a n
unfolding bytes_at
bytes_at-ext m m' a zero h same = refl
bytes_at-ext m m' a (suc n) h same =
    let next : add32 a 1 ≡ a + 1 = omega (arith, h) in
    let first = same a (omega arith) (omega arith) in
    let rest =
      bytes_at-ext m m' (a + 1) n (omega (arith, h))
        (λ x from to. same x (omega arith) (omega arith)) in
    rw (next, first, rest) refl

pub bytes_at-store_bytes :
    (m : Ram) (a : ℕ) (bs : List ℕ)
    → a + length bs < u32
    → bytes_at (store_bytes m a bs) a (length bs) ≡ bs
unfolding bytes_at store_bytes
bytes_at-store_bytes m a [] h = refl
bytes_at-store_bytes m a (b ∷ bs) h =
    let next : add32 a 1 ≡ a + 1 = omega (arith, h) in
    let here =
      store_bytes-outside (update m a b) (a + 1) bs a (omega (arith, h)) (inl (omega arith)) in
    let stored : update m a b a ≡ b = ground arith in
    let rest = bytes_at-store_bytes (update m a b) (a + 1) bs (omega (arith, h)) in
    let shape : bytes_at (store_bytes m a (b ∷ bs)) a (length (b ∷ bs)) ≡ (
        let m' = store_bytes (update m a b) (a + 1) bs in m' a ∷ bytes_at m' (a + 1) (length bs)) =
      ap (λ n. let m' = store_bytes (update m a b) n bs in m' a ∷ bytes_at m' n (length bs)) next in
    shape ∙ rw (here, stored, rest) refl

-- Two stores one behind the other are both read back.
stored_both :
    (m : Ram) (a : ℕ) (bs cs : List ℕ)
    → a + length bs + length cs < u32
    → (let m' = store_bytes (store_bytes m a bs) (add32 a (length bs)) cs in
        (bytes_at m' a (length bs) ≡ bs) × (bytes_at m' (add32 a (length bs)) (length cs) ≡ cs))
stored_both m a bs cs h =
    let m₁ = store_bytes m a bs in
    let next : add32 a (length bs) ≡ a + length bs = omega (arith, h) in
    let kept = λ (x : ℕ) (from : a ≤ x) (to : x < a + length bs).
      store_bytes-outside m₁ (a + length bs) cs x h (inl to) in
    rw next (
      bytes_at-ext (store_bytes m₁ (a + length bs) cs) m₁ a (length bs) (omega (arith, h)) kept
          ∙ bytes_at-store_bytes m a bs (omega (arith, h)),
      bytes_at-store_bytes m₁ (a + length bs) cs h,
    )

send_lem :
    (s : System) (ecx edx idx : ℕ)
    → is_invalid s ecx ≡ false
    → get_process_index_from_pid s.kernel edx ≡ some idx
    → (s.kernel.processes idx).ipc_queue_size < process_msg_queue_size
    → (s' : System) × (sc_msg 0 ecx edx s ≡ Reply.returned sret_success s')
      × Delivered s.kernel idx (proc_msg_at (ram_of s) (user_address s ecx)) s'.kernel
      × ((s'.kernel.processes idx).mem_start ≡ (s.kernel.processes idx).mem_start)
      × ((s'.kernel.processes idx).mem_size ≡ (s.kernel.processes idx).mem_size)
unfolding sc_msg sc_msg_send
send_lem s ecx edx idx valid found room =
    let message = proc_msg_at (ram_of s) (user_address s ecx) in
    let (k', run, d) = send_message_to_process-Delivered s.kernel edx message idx found room in
    let same = send_message_to_process-SameBut s.kernel edx message in
    let (start, size, pid) = same.place idx in
    let kept : (send_message_to_process s.kernel edx message).2 ≡ k' = ap (λ r. r.2) run in
    let s' = record s { kernel = k' } in
    (
      with_ram s' (
          store_bytes (ram_of s') (user_address s ecx)
            (dword_bytes (stamp s.kernel message).from_pid)),
      rw (valid, run) refl,
      record {
        mail = d.mail;
        counted = d.counted;
        others = d.others;
        same_pid = d.same_pid;
        same_count = d.same_count;
        same_at = d.same_at;
      },
      rw (sym kept) start,
      rw (sym kept) size,
    )

pop_lem :
    (s : System) (ecx : ℕ) (message : ProcMsg) (ms : List ProcMsg)
    → is_invalid s ecx ≡ false
    → mailbox s.kernel s.kernel.scheduler_process_at ≡ message ∷ ms
    → length message.msg ≡ 50
    → user_address s ecx + 54 < u32
    → (s' : System) × ((edx : ℕ) → sc_msg 1 ecx edx s ≡ Reply.returned sret_success s')
      × (bytes_at (ram_of s') (user_address s ecx) 4 ≡ dword_bytes message.from_pid)
      × (bytes_at (ram_of s') (add32 (user_address s ecx) 4) 50 ≡ message.msg)
      × (mailbox s'.kernel s.kernel.scheduler_process_at ≡ ms)
unfolding sc_msg sc_msg_pop
pop_lem s ecx message ms valid mail full end =
    let (k', run, rest, others, at) = pop_message-cons s.kernel message ms mail in
    let got : (pop_message s.kernel).0 ≡ some message = ap (λ r. r.0) run in
    let left : (pop_message s.kernel).1 ≡ k' = ap (λ r. r.1) run in
    let s₁ = record s { kernel = k' } in
    let a = user_address s ecx in
    let sender = dword_bytes message.from_pid in
    let (from, body) = stored_both (ram_of s₁) a sender message.msg (omega (arith, end, full)) in
    (
      with_ram s₁ (store_bytes (store_bytes (ram_of s₁) a sender) (add32 a 4) message.msg),
      λ edx. rw (valid, got, left) refl,
      from,
      rw (sym full) body,
      rest,
    )

abbrev pub run_at : System → ℕ → System
run_at s idx = record s { kernel = record s.kernel { scheduler_process_at = idx } }

-- A process sends the message at `ecx` to the pid of a process with an empty queue, and the scheduler
-- picks that process, which pops a message to `ecx'`: both calls succeed, and the receiver finds
-- the 50 bytes of the message, with the pid of the sender in front of them whatever the sender wrote
-- there. Its queue is empty again.
pub sys_call-message :
    (fuel : ℕ) (env : Environment) (s : System) (ecx edx idx ecx' edx' : ℕ)
    → is_invalid s ecx ≡ false
    → get_process_index_from_pid s.kernel edx ≡ some idx
    → mailbox s.kernel idx ≡ []
    → ecx' + 54 < (s.kernel.processes idx).mem_size
    → (s.kernel.processes idx).mem_start + (s.kernel.processes idx).mem_size < u32
    → (s₁ : System) × (s₂ : System) × (sys_call fuel env
          (record { eax = 11; ebx = 0; ecx = ecx; edx = edx })
          s
        ≡ some (Reply.returned sret_success s₁))
      × (sys_call fuel env (record { eax = 11; ebx = 1; ecx = ecx'; edx = edx' }) (run_at s₁ idx)
          ≡ some (Reply.returned sret_success s₂))
      × (let to = add32 ecx' (s.kernel.processes idx).mem_start in
          (bytes_at (ram_of s₂) to 4 ≡ dword_bytes (caller s).pid)
          × (bytes_at (ram_of s₂) (add32 to 4) 50
              ≡ bytes_at (ram_of s) (add32 (user_address s ecx) 4) 50))
      × (mailbox s₂.kernel idx ≡ [])
unfolding sys_call
sys_call-message fuel env s ecx edx idx ecx' edx' valid found empty inside bounded =
    let message = proc_msg_at (ram_of s) (user_address s ecx) in
    let none_yet : (s.kernel.processes idx).ipc_queue_size ≡ 0 =
      ground (arith, length-messages (s.kernel.processes idx)) in
    let (s₁, sent, d, start, size) = send_lem s ecx edx idx valid found (omega (arith, none_yet)) in
    let s₁' = run_at s₁ idx in
    let to : user_address s₁' ecx' ≡ add32 ecx' (s.kernel.processes idx).mem_start =
      ap (add32 ecx') start in
    let valid' : is_invalid s₁' ecx' ≡ false = ground (arith, size, inside) in
    let mail : mailbox s₁'.kernel idx ≡ stamp s.kernel message ∷ [] =
      d.mail ∙ ap (λ ms. ms ++ (stamp s.kernel message ∷ [])) empty in
    let (s₂, got, from, body, rest) =
      pop_lem s₁' ecx' (stamp s.kernel message) [] valid' mail (length-bytes_at (ram_of s) _ 50)
        (omega (arith, to, inside, bounded)) in
    (s₁, s₂, ap some sent, ap some (got edx'), rw (sym to) (from, body), rest)
