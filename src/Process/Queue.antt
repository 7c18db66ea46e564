-- ===== src/Process/Queue.antt =====
-- The message queues: `sendMessageToProcess` and the pop of SC_MSG against a queue of at most 16
-- messages, oldest first.
use acky.Base.{
  ℕ, zero, suc, ◌+◌, ◌-◌, ◌≤◌, ◌<◌, ◌≡◌, ◌≢◌, refl, ◌⊎◌, arith, ◌==◌, inl, inr, Bool-cases, some,
  none, true, false, List, [], ◌∷◌, ◌++◌, length, update, ap,
}
use acky.Process.{
  Process, ProcMsg, Kernel, process_msg_queue_size, get_process_index_from_pid,
  send_message_to_process, shift_queue, pop_message,
}

-- The `n` cells from `i` on.
abbrev pub cells : (ℕ → ProcMsg) → ℕ → ℕ → List ProcMsg
cells q i zero = []
cells q i (suc n) = q i ∷ cells q (i + 1) n

-- The messages that wait for a process, oldest first.
abbrev pub messages : Process → List ProcMsg
messages p = cells p.ipc_queue 0 p.ipc_queue_size

abbrev pub mailbox : Kernel → ℕ → List ProcMsg
mailbox k i = messages (k.processes i)

length-cells : (q : ℕ → ProcMsg) (i n : ℕ) → length (cells q i n) ≡ n
length-cells q i zero = refl
length-cells q i (suc n) = ap suc (length-cells q (i + 1) n)

cells-ext :
    (q r : ℕ → ProcMsg) (i j n : ℕ)
    → ((x : ℕ) → x < n → q (i + x) ≡ r (j + x))
    → cells q i n ≡ cells r j n
cells-ext q r i j zero same = refl
cells-ext q r i j (suc n) same =
    let first : q i ≡ r j = ground (arith, same 0) in
    let rest =
      cells-ext q r (i + 1) (j + 1) n
        (λ x h. ground (arith, same (suc x), (λ (p : i + 1 + x ≡ i + suc x). p))) in
    ground (arith, first, rest)

-- Writing just behind a queue appends to it.
cells-append :
    (q : ℕ → ProcMsg) (i n : ℕ) (m : ProcMsg)
    → cells (update q (i + n) m) i (suc n) ≡ cells q i n ++ (m ∷ [])
cells-append q i zero m = ground arith
cells-append q i (suc n) m =
    let e : i + suc n ≡ i + 1 + n = omega arith in ground (arith, cells-append q (i + 1) n m)

shift_queue-below : (q : ℕ → ProcMsg) (i left x : ℕ) → x < i → shift_queue q i left x ≡ q x
unfolding shift_queue
shift_queue-below q i zero x h = refl
shift_queue-below q i (suc left) x h =
    ground (arith, shift_queue-below (update q i (q (i + 1))) (i + 1) left x)

shift_queue-within :
    (q : ℕ → ProcMsg) (i left x : ℕ) → i ≤ x → x < i + left → shift_queue q i left x ≡ q (x + 1)
unfolding shift_queue
shift_queue-within q i zero x a b = absurd (omega arith)
shift_queue-within q i (suc left) x a b =
    let q' = update q i (q (i + 1)) in
    elim (Bool-cases (i == x)) [
      | inl here ↦ ground (arith, shift_queue-below q' (i + 1) left x)
      | inr there ↦ ground (arith, shift_queue-within q' (i + 1) left x)
    ]

-- The shift of a queue of `n + 1` messages leaves the last `n` of them.
cells-shift_queue : (q : ℕ → ProcMsg) (n : ℕ) → cells (shift_queue q 0 n) 0 n ≡ cells q 1 n
cells-shift_queue q n = cells-ext (shift_queue q 0 n) q 0 1 n λ x h.
    let e : x + 1 ≡ 1 + x = omega arith in
    ground (arith, shift_queue-within q 0 n x, (λ (p : 0 + x ≡ x). p))

-- What the sender stamps on a message: the pid of the process that the scheduler is at.
abbrev pub stamp : Kernel → ProcMsg → ProcMsg
stamp k msg = record msg { from_pid = (k.processes k.scheduler_process_at).pid }

-- A delivery: the mailbox of process `idx` grows by the stamped message, and no other process
-- changes.
pub record Delivered (k : Kernel) (idx : ℕ) (msg : ProcMsg) (k' : Kernel) : Type 0 where
  pub mail : mailbox k' idx ≡ mailbox k idx ++ (stamp k msg ∷ [])
  pub counted : (k'.processes idx).ipc_queue_size ≡ (k.processes idx).ipc_queue_size + 1
  pub others : (j : ℕ) → j ≢ idx → k'.processes j ≡ k.processes j
  pub same_pid : (j : ℕ) → (k'.processes j).pid ≡ (k.processes j).pid
  pub same_count : k'.process_count ≡ k.process_count
  pub same_at : k'.scheduler_process_at ≡ k.scheduler_process_at

-- A message to the pid of a process whose queue is not full is accepted: it is stamped with the
-- pid of the process that the scheduler is at, whatever sender it names, and appended to that
-- process's queue.
pub send_message_to_process-Delivered :
    (k : Kernel) (pid : ℕ) (msg : ProcMsg) (idx : ℕ)
    → get_process_index_from_pid k pid ≡ some idx
    → (k.processes idx).ipc_queue_size < process_msg_queue_size
    → (k' : Kernel) × (send_message_to_process k pid msg ≡ (true, stamp k msg, k'))
      × Delivered k idx msg k'
unfolding send_message_to_process
send_message_to_process-Delivered k pid msg idx found room =
    let p = k.processes idx in
    let k' : Kernel = record k {
      processes = update k.processes idx (record p {
        ipc_queue_size = p.ipc_queue_size + 1;
        ipc_queue = update p.ipc_queue p.ipc_queue_size (stamp k msg);
      });
    } in
    let one_more : p.ipc_queue_size + 1 ≡ suc p.ipc_queue_size = omega arith in
    (
      k',
      ground arith,
      record {
        mail = ground (
          arith,
          cells-append p.ipc_queue 0 p.ipc_queue_size (stamp k msg),
          (λ (e : 0 + p.ipc_queue_size ≡ p.ipc_queue_size). e),
        );
        counted = ground arith;
        others = λ j ne. ground arith;
        same_pid = λ j. ground arith;
        same_count = refl;
        same_at = refl;
      },
    )

-- A message to a pid that no process has, or to a process whose queue holds 16 messages, is
-- refused, and nothing changes, the sender's message included.
pub send_message_to_process-refused :
    (k : Kernel) (pid : ℕ) (msg : ProcMsg)
    → ((get_process_index_from_pid k pid ≡ none)
        ⊎ ((idx : ℕ) × (get_process_index_from_pid k pid ≡ some idx)
            × (process_msg_queue_size ≤ (k.processes idx).ipc_queue_size)))
    → send_message_to_process k pid msg ≡ (false, msg, k)
unfolding send_message_to_process
send_message_to_process-refused k pid msg (inl unknown) = ground arith
send_message_to_process-refused k pid msg (inr (idx, found, full)) = ground arith

cells_inversion :
    (q : ℕ → ProcMsg) (n : ℕ) (m : ProcMsg) (ms : List ProcMsg)
    → cells q 0 n ≡ m ∷ ms
    → (0 < n) × (q 0 ≡ m) × (cells q 1 (n - 1) ≡ ms)
cells_inversion q zero m ms h = absurd (ground arith)
cells_inversion q (suc n) m ms h =
    let e : suc n - 1 ≡ n = omega arith in (omega arith, ground arith, ground arith)

-- The state that the pop leaves.
abbrev popped : Kernel → Kernel
popped k =
    let at = k.scheduler_process_at in
    let p = k.processes at in
    record k {
      processes = update k.processes at (record p {
        ipc_queue_size = p.ipc_queue_size - 1;
        ipc_queue = shift_queue p.ipc_queue 0 (p.ipc_queue_size - 1);
      });
    }

pub length-messages : (p : Process) → length (messages p) ≡ p.ipc_queue_size
length-messages p = length-cells p.ipc_queue 0 p.ipc_queue_size

-- The pop of SC_MSG takes the oldest message of the process that the scheduler is at, leaves the
-- others in order, and changes no other process.
pub pop_message-cons :
    (k : Kernel) (m : ProcMsg) (ms : List ProcMsg)
    → mailbox k k.scheduler_process_at ≡ m ∷ ms
    → (k' : Kernel) × (pop_message k ≡ (some m, k'))
      × (mailbox k' k.scheduler_process_at ≡ ms)
      × ((j : ℕ) → j ≢ k.scheduler_process_at → k'.processes j ≡ k.processes j)
      × (k'.scheduler_process_at ≡ k.scheduler_process_at)
unfolding pop_message
pop_message-cons k m ms mail =
    let p = k.processes k.scheduler_process_at in
    let (some_mail, first, rest) = cells_inversion p.ipc_queue p.ipc_queue_size m ms mail in
    (
      popped k,
      ground arith,
      ground (arith, cells-shift_queue p.ipc_queue (p.ipc_queue_size - 1)),
      λ j ne. ground arith,
      refl,
    )

-- With no message waiting, the pop of SC_MSG finds none and changes nothing.
pub pop_message-nil :
    (k : Kernel) → mailbox k k.scheduler_process_at ≡ [] → pop_message k ≡ (none, k)
unfolding pop_message
pop_message-nil k mail =
    let p = k.processes k.scheduler_process_at in
    ground (arith, length-cells p.ipc_queue 0 p.ipc_queue_size)
