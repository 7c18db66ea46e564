-- ===== src/World/Places.antt =====
-- A healthy kernel, and the changes that touch nothing that its health depends on.
use acky.Base.{
  ℕ, suc, ◌+◌, ◌-◌, ◌<◌, ◌≤◌, ◌≡◌, ◌⊎◌, refl, ap, inl, inr, arith, leb, update, Bool-cases,
  Option-cases,
}
use acky.Alloc.{Allocator}
use acky.Alloc.Inv.{IsValid}
use acky.Process.{
  Process, ProcMsg, Kernel, process_msg_queue_size, max_processes, kill, send_message_to_process,
  pop_message, shift_queue, get_process_index_from_pid,
}
use acky.Process.Entries.{IsCoherent}
use acky.Alloc.Content.{old_index}
use acky.Process.Sending.{queued, send_message_to_process-cases}
use acky.Process.Kill.{kill-Survives, kill-IsCoherent, kill-unknown, index-IsHolder}

-- The table and the block list agree, the table holds at most its 256 processes, and no queue more than its 16
-- messages.
pub record IsHealthy (k : Kernel) : Type 0 where
  pub coherent : IsCoherent k
  pub in_table : k.process_count ≤ max_processes
  pub queues :
      (j : ℕ) → j < k.process_count → (k.processes j).ipc_queue_size ≤ process_msg_queue_size

-- The place of a process, and a queue that fits if it did.
pub record SamePlace (p p' : Process) : Type 0 where
  pub start : p'.mem_start ≡ p.mem_start
  pub size : p'.mem_size ≡ p.mem_size
  pub queue : p.ipc_queue_size ≤ process_msg_queue_size → p'.ipc_queue_size ≤ process_msg_queue_size

-- Two kernels with the same blocks and as many processes, each in its place.
pub record SamePlaces (k k' : Kernel) : Type 0 where
  pub list : k'.memory.mem_list ≡ k.memory.mem_list
  pub index : k'.memory.mem_index ≡ k.memory.mem_index
  pub count : k'.process_count ≡ k.process_count
  pub places : (j : ℕ) → SamePlace (k.processes j) (k'.processes j)

pub SamePlace-refl : (p : Process) → SamePlace p p
SamePlace-refl p = record { start = refl; size = refl; queue = λ h. h }

pub SamePlaces-refl : (k : Kernel) → SamePlaces k k
SamePlaces-refl k = record {
  list = refl;
  index = refl;
  count = refl;
  places = λ j. SamePlace-refl (k.processes j);
}

pub SamePlace-update :
    (ps : ℕ → Process) (i j : ℕ) (p : Process)
    → SamePlace (ps i) p
    → SamePlace (ps j) (update ps i p j)
SamePlace-update ps i j p same = record {
  start = ground (arith, same.start);
  size = ground (arith, same.size);
  queue = λ h. ground (arith, same.queue);
}

IsValid-same :
    (s s' : Allocator)
    → s'.mem_list ≡ s.mem_list
    → s'.mem_index ≡ s.mem_index
    → IsValid s
    → IsValid s'
IsValid-same s s' list index v =
    let at = λ (i : ℕ). ap (λ l. l i) list in
    record {
      null_start = ground (arith, at 0, v.null_start);
      null_size = ground (arith, at 0, v.null_size);
      positive = omega (arith, index, v.positive);
      bounded = omega (arith, index, v.bounded);
      adjacent = λ i h. ground (arith, at i, at (suc i), v.adjacent i (omega (arith, h, index)));
      non_empty = λ i p h. ground (arith, at i, v.non_empty i p (omega (arith, h, index)));
      top-lt = ground (arith, index, at (s.mem_index - 1), v.top-lt);
    }

IsCoherent-same : (k k' : Kernel) → SamePlaces k k' → IsCoherent k → IsCoherent k'
IsCoherent-same k k' same c =
    let at = λ (i : ℕ). ap (λ l. l i) same.list in
    record {
      valid = IsValid-same k.memory k'.memory same.list same.index c.valid;
      in_step = omega (arith, same.index, same.count, c.in_step);
      starts = λ j h.
          let p = (same.places j).start in
          ground (arith, p, at (j + 2), c.starts j (omega (arith, h, same.count)));
      sizes = λ j h.
          let p = (same.places j).size in
          ground (arith, p, at (j + 2), c.sizes j (omega (arith, h, same.count)));
    }

pub IsHealthy-same : (k k' : Kernel) → SamePlaces k k' → IsHealthy k → IsHealthy k'
IsHealthy-same k k' same h = record {
  coherent = IsCoherent-same k k' same h.coherent;
  in_table = omega (arith, same.count, h.in_table);
  queues = λ j listed. (same.places j).queue (h.queues j (omega (arith, listed, same.count)));
}

pub send_message_to_process-SamePlaces :
    (k : Kernel) (pid : ℕ) (msg : ProcMsg) → SamePlaces k (send_message_to_process k pid msg).2
send_message_to_process-SamePlaces k pid msg = elim (send_message_to_process-cases k pid msg) [
  | inl same ↦ rw same (SamePlaces-refl k)
  | inr (idx, hit, room, sent, one) ↦ rw one (record {
    list = refl;
    index = refl;
    count = refl;
    places = λ j.
        SamePlace-update k.processes idx j (queued (k.processes idx) sent)
          (record { start = refl; size = refl; queue = λ h. omega (arith, room) });
  })
]

popped : Process → (ℕ → ProcMsg) → Process
popped p queue = record p { ipc_queue_size = p.ipc_queue_size - 1; ipc_queue = queue }

pop_message-cases :
    (k : Kernel)
    → ((pop_message k).1 ≡ k)
      ⊎ ((queue : ℕ → ProcMsg) × ((pop_message k).1 ≡ record k {
        processes =
            update k.processes k.scheduler_process_at
              (popped (k.processes k.scheduler_process_at) queue);
      }))
unfolding pop_message popped
pop_message-cases k =
    let p = k.processes k.scheduler_process_at in
    elim (Bool-cases (leb p.ipc_queue_size 0)) [
      | inl empty ↦ inl (ground arith)
      | inr some_mail ↦ inr (shift_queue p.ipc_queue 0 (p.ipc_queue_size - 1), ground arith)
    ]

pub pop_message-SamePlaces : (k : Kernel) → SamePlaces k (pop_message k).1
unfolding popped
pop_message-SamePlaces k = elim (pop_message-cases k) [
  | inl same ↦ rw same (SamePlaces-refl k)
  | inr (queue, one) ↦ rw one (record {
    list = refl;
    index = refl;
    count = refl;
    places = λ j.
        SamePlace-update k.processes k.scheduler_process_at j
          (popped (k.processes k.scheduler_process_at) queue)
          (record { start = refl; size = refl; queue = λ h. omega (arith, h) });
  })
]

pub kill-IsHealthy : (k : Kernel) (pid : ℕ) → IsHealthy k → IsHealthy (kill k pid)
kill-IsHealthy k pid h = elim (Option-cases (get_process_index_from_pid k pid)) [
  | inl unknown ↦ rw (kill-unknown k pid unknown) h
  | inr (idx, found) ↦
      let (count, survives) = kill-Survives k pid idx h.coherent found in
      let (user, listed, hit) = index-IsHolder k pid idx found in
      record {
        coherent = kill-IsCoherent k pid h.coherent;
        in_table = omega (arith, count, h.in_table);
        queues = λ j below.
            let same : ((kill k pid).processes j).ipc_queue_size
                ≡ (k.processes (old_index idx j)).ipc_queue_size =
              ap (λ (p : Process). p.ipc_queue_size) (survives j below).entry in
            let old : old_index idx j < k.process_count = ground (arith, count, below) in
            omega (arith, same, h.queues (old_index idx j) old);
      }
]
