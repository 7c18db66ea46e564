-- ===== src/Syscall/Ownership.antt =====
-- The screen belongs to one process: what the graphics call of another one may change.
use acky.Base.{
  ℕ, ◌<◌, ◌≡◌, ◌≢◌, ◌⊎◌, inl, inr, refl, ◌∙◌, ap, arith, true, false, some, ◌==◌, Option-cases,
  Bool-cases, leb, update,
}
use acky.Process.{Process, ProcMsg, Kernel, process_msg_queue_size, send_message_to_process}
use acky.Process.Sending.{queued, send_message_to_process-cases}
use acky.Syscall.{
  System, Environment, Reply, sret_success, sret_error, caller, ram_of, user_address,
}
use acky.Syscall.Screen.{request, sc_graphics, other_graphics}
use acky.Syscall.Bytes.{over}
use acky.Syscall.Dispatch.{sys_call}

-- Two kernels that differ in one message that was put into the queue of a process with the pid, at most.
pub record SameBut (pid : ℕ) (k k' : Kernel) : Type 0 where
  pub memory : k'.memory ≡ k.memory
  pub count : k'.process_count ≡ k.process_count
  pub at : k'.scheduler_process_at ≡ k.scheduler_process_at
  pub tick : k'.tick ≡ k.tick
  pub queue :
      (j : ℕ)
      → (k'.processes j ≡ k.processes j)
        ⊎ (((k.processes j).pid ≡ pid)
            × ((k.processes j).ipc_queue_size < process_msg_queue_size)
            × (sent : ProcMsg) × (k'.processes j ≡ queued (k.processes j) sent))
  pub others : (j : ℕ) → (k.processes j).pid ≢ pid → k'.processes j ≡ k.processes j
  pub place :
      (j : ℕ)
      → ((k'.processes j).mem_start ≡ (k.processes j).mem_start)
        × ((k'.processes j).mem_size ≡ (k.processes j).mem_size)
        × ((k'.processes j).pid ≡ (k.processes j).pid)

SameBut-same : (pid : ℕ) (k : Kernel) → SameBut pid k k
SameBut-same pid k = record {
  memory = refl;
  count = refl;
  at = refl;
  tick = refl;
  queue = λ j. inl refl;
  others = λ j ne. refl;
  place = λ j. (refl, refl, refl);
}

update-elsewhere : (f : ℕ → Process) (i j : ℕ) (p : Process) → j ≢ i → update f i p j ≡ f j
update-elsewhere f i j p ne = ground arith

queued-place :
    (f : ℕ → Process) (i j : ℕ) (sent : ProcMsg)
    → ((update f i (queued (f i) sent) j).mem_start ≡ (f j).mem_start)
      × ((update f i (queued (f i) sent) j).mem_size ≡ (f j).mem_size)
      × ((update f i (queued (f i) sent) j).pid ≡ (f j).pid)
queued-place f i j sent = (ground arith, ground arith, ground arith)

pub send_message_to_process-SameBut :
    (k : Kernel) (pid : ℕ) (msg : ProcMsg) → SameBut pid k (send_message_to_process k pid msg).2
send_message_to_process-SameBut k pid msg = elim (send_message_to_process-cases k pid msg) [
  | inl same ↦ rw same (SameBut-same pid k)
  | inr (idx, hit, room, sent, one) ↦ rw one (record {
    memory = refl;
    count = refl;
    at = refl;
    tick = refl;
    queue = λ j. elim (Bool-cases (j == idx)) [
      | inl here ↦
          let same : j ≡ idx = ground (arith, here) in inr (rw same (hit, room, sent, ground arith))
      | inr away ↦ inl (
          update-elsewhere k.processes idx j (queued (k.processes idx) sent) (ground (arith, away)))
    ];
    others = λ j ne.
        update-elsewhere k.processes idx j (queued (k.processes idx) sent) (λ e. ne (rw e hit));
    place = λ j. queued-place k.processes idx j sent;
  })
]

sc_graphics-other :
    (fuel : ℕ) (env : Environment) (ebx ecx : ℕ) (s : System)
    → s.owner_set ≡ true
    → (caller s).pid ≢ s.owner_pid
    → sc_graphics fuel env ebx ecx s ≡ some (other_graphics env ebx ecx s)
unfolding sc_graphics
sc_graphics-other fuel env ebx ecx s set other =
    let differs : ((caller s).pid == s.owner_pid) ≡ false = ground arith in simp (set, differs)

other_graphics-SameBut :
    (env : Environment) (ebx ecx : ℕ) (s : System)
    → (v : ℕ) × (k' : Kernel) × (other_graphics env ebx ecx s
        ≡ Reply.returned v (record s { kernel = k' }))
      × SameBut s.owner_pid s.kernel k'
unfolding other_graphics
other_graphics-SameBut env ebx ecx s =
    let same = SameBut-same s.owner_pid s.kernel in
    elim (Bool-cases (leb (caller s).mem_size ecx)) [
      | inl wild ↦ (sret_error, s.kernel, rw wild refl, same)
      | inr within ↦ elim (Option-cases (request (ram_of s) ebx (user_address s ecx))) [
        | inl unknown ↦ (sret_error, s.kernel, rw (within, unknown) refl, same)
        | inr (bytes, asked) ↦
            let message : ProcMsg = record {
              from_pid = (caller s).pid;
              msg = over bytes env.stale_msg;
            } in
            (
              sret_success,
              (send_message_to_process s.kernel s.owner_pid message).2,
              rw (within, asked) refl,
              send_message_to_process-SameBut s.kernel s.owner_pid message,
            )
      ]
    ]

-- While another process owns the screen, a graphics call returns to the process and changes nothing but that
-- one message may come into the queue of the owner, where it has room: the memory with the frame buffer, the segments, the interrupt
-- table, the mode and the owner stay, and so does every other field of
-- every process and the tick.
pub sys_call-not_owner :
    (fuel : ℕ) (env : Environment) (ebx ecx edx : ℕ) (s : System)
    → s.owner_set ≡ true
    → (caller s).pid ≢ s.owner_pid
    → (v : ℕ) × (k' : Kernel) × (sys_call fuel env
          (record { eax = 13; ebx = ebx; ecx = ecx; edx = edx })
          s
        ≡ some (Reply.returned v (record s { kernel = k' })))
      × SameBut s.owner_pid s.kernel k'
unfolding sys_call
sys_call-not_owner fuel env ebx ecx edx s set other =
    let (v, k', run, same) = other_graphics-SameBut env ebx ecx s in
    (v, k', sc_graphics-other fuel env ebx ecx s set other ∙ ap some run, same)
