-- ===== src/Process/Fifo.antt =====
-- A whole conversation: messages that one process sends and another one pops, in order.
use mathlib.Core.List.{append_assoc, append-nil}
use acky.Base.{
  ℕ, zero, suc, ◌+◌, ◌-◌, ◌≤◌, ◌≡◌, refl, arith, some, none, List, [], ◌∷◌, ◌++◌, length, ◌∙◌, ap,
  map, sym, fun_ext,
}
use acky.Process.{
  Process, ProcMsg, Kernel, process_msg_queue_size, find_pid, get_process_index_from_pid,
  send_message_to_process, pop_message,
}
use acky.Process.Queue.{
  mailbox, stamp, Delivered, send_message_to_process-Delivered, pop_message-cons, pop_message-nil,
  length-messages,
}

length-map : (f : ProcMsg → ProcMsg) (ms : List ProcMsg) → length (map f ms) ≡ length ms
length-map f [] = refl
length-map f (m ∷ ms) = ap suc (length-map f ms)

-- The search reads only the pids.
find_pid-ext :
    (ps qs : ℕ → Process) (pid i left : ℕ)
    → ((j : ℕ) → (ps j).pid ≡ (qs j).pid)
    → find_pid ps pid i left ≡ find_pid qs pid i left
unfolding find_pid
find_pid-ext ps qs pid i zero same = refl
find_pid-ext ps qs pid i (suc left) same =
    ground (arith, same i, find_pid-ext ps qs pid (i + 1) left same)

index-Delivered :
    (k k' : Kernel) (idx : ℕ) (msg : ProcMsg) (pid : ℕ)
    → Delivered k idx msg k'
    → get_process_index_from_pid k' pid ≡ get_process_index_from_pid k pid
unfolding get_process_index_from_pid
index-Delivered k k' idx msg pid d =
    rw d.same_count (find_pid-ext k'.processes k.processes pid 1 (k.process_count - 1) d.same_pid)

stamp-Delivered :
    (k k' : Kernel) (idx : ℕ) (msg other : ProcMsg)
    → Delivered k idx msg k'
    → stamp k' other ≡ stamp k other
stamp-Delivered k k' idx msg other d = ground (arith, d.same_at, d.same_pid k.scheduler_process_at)

-- The same sender sends the messages in turn.
pub send_all : Kernel → ℕ → List ProcMsg → Kernel
send_all k pid [] = k
send_all k pid (m ∷ ms) = send_all (send_message_to_process k pid m).2 pid ms

-- The process that the scheduler is at pops until it finds no message, at most `n` times.
pub receive : ℕ → Kernel → List ProcMsg
receive zero k = []
receive (suc n) k =
    let (got, k') = pop_message k in
    let rest = receive n k' in elim got [ none ↦ [] | some m ↦ m ∷ rest ]

receive-mailbox :
    (n : ℕ) (k : Kernel) (ms : List ProcMsg)
    → mailbox k k.scheduler_process_at ≡ ms
    → length ms ≤ n
    → receive n k ≡ ms
unfolding receive
receive-mailbox zero k [] mail h = refl
receive-mailbox zero k (m ∷ ms) mail h = absurd (omega arith)
receive-mailbox (suc n) k [] mail h = ground (arith, pop_message-nil k mail)
receive-mailbox (suc n) k (m ∷ ms) mail h =
    let (k', pop, left, _, at) = pop_message-cons k m ms mail in
    let rest = receive-mailbox n k' ms (rw at left) (omega arith) in ground arith

send_all-mailbox :
    (ms : List ProcMsg) (k : Kernel) (pid idx : ℕ)
    → get_process_index_from_pid k pid ≡ some idx
    → (k.processes idx).ipc_queue_size + length ms ≤ process_msg_queue_size
    → mailbox (send_all k pid ms) idx ≡ mailbox k idx ++ map (stamp k) ms
unfolding send_all
send_all-mailbox [] k pid idx found room = sym (append-nil (mailbox k idx))
send_all-mailbox (m ∷ ms) k pid idx found room =
    let (k', sent, d) = send_message_to_process-Delivered k pid m idx found (omega arith) in
    let ih =
      send_all-mailbox ms k' pid idx (index-Delivered k k' idx m pid d ∙ found)
        (omega (arith, d.counted)) in
    let stamps : map (stamp k') ms ≡ map (stamp k) ms =
      ap (λ f. map f ms) (fun_ext λ other. stamp-Delivered k k' idx m other d) in
    let next : (send_message_to_process k pid m).2 ≡ k' = ground arith in
    ap (λ s. mailbox (send_all s pid ms) idx) next
    ∙ ih
    ∙ rw (d.mail, stamps) (append_assoc (mailbox k idx) (stamp k m ∷ []) (map (stamp k) ms))

-- At most 16 messages sent in turn to a process with an empty mailbox are popped by it, once the
-- scheduler is at it, in the order of sending, each stamped with the sender's pid, and none is lost.
pub receive-send_all :
    (k : Kernel) (pid idx : ℕ) (ms : List ProcMsg)
    → get_process_index_from_pid k pid ≡ some idx
    → mailbox k idx ≡ []
    → length ms ≤ process_msg_queue_size
    → receive process_msg_queue_size (record (send_all k pid ms) { scheduler_process_at = idx })
      ≡ map (stamp k) ms
receive-send_all k pid idx ms found empty fits =
    let none_yet : (k.processes idx).ipc_queue_size ≡ 0 =
      ground (arith, length-messages (k.processes idx)) in
    receive-mailbox process_msg_queue_size
      (record (send_all k pid ms) { scheduler_process_at = idx }) (map (stamp k) ms)
      (send_all-mailbox ms k pid idx found (omega arith) ∙ rw empty)
      (omega (arith, length-map (stamp k) ms))
