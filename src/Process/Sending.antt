-- ===== src/Process/Sending.antt =====
-- The two outcomes of sending a message, as seen from the table.
use acky.Base.{ℕ, ◌+◌, ◌<◌, ◌≡◌, ◌⊎◌, inl, inr, arith, Option-cases, Bool-cases, leb, update}
use acky.Process.{
  Process, ProcMsg, Kernel, get_process_index_from_pid, send_message_to_process,
  process_msg_queue_size,
}
use acky.Process.Kill.{index-IsHolder}

-- A process with one more message in its queue.
abbrev pub queued : Process → ProcMsg → Process
queued p sent = record p {
  ipc_queue_size = p.ipc_queue_size + 1;
  ipc_queue = update p.ipc_queue p.ipc_queue_size sent;
}

-- Sending changes nothing, or puts one message into a queue with room.
pub send_message_to_process-cases :
    (k : Kernel) (pid : ℕ) (msg : ProcMsg)
    → ((send_message_to_process k pid msg).2 ≡ k)
      ⊎ ((idx : ℕ) × ((k.processes idx).pid ≡ pid)
          × ((k.processes idx).ipc_queue_size < process_msg_queue_size)
          × (sent : ProcMsg) × ((send_message_to_process k pid msg).2
              ≡ record k { processes = update k.processes idx (queued (k.processes idx) sent) }))
unfolding send_message_to_process
send_message_to_process-cases k pid msg = elim (Option-cases (get_process_index_from_pid k pid)) [
  | inl missing ↦ inl (ground arith)
  | inr (idx, found) ↦
      let (one, below, hit) = index-IsHolder k pid idx found in
      let sent = record msg { from_pid = (k.processes k.scheduler_process_at).pid } in
      elim (Bool-cases (leb process_msg_queue_size (k.processes idx).ipc_queue_size)) [
        | inl full ↦ inl (ground arith)
        | inr room ↦ inr (idx, hit, ground arith, sent, ground arith)
      ]
]
