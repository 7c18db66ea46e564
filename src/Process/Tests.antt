-- ===== src/Process/Tests.antt =====
-- Tests of the process table, and its theorems at a concrete kernel.
use acky.Base.{
  ℕ, suc, ◌≤◌, ◌<◌, ◌≡◌, refl, arith, ◌==◌, if◌then◌else◌, inl, some, none, done, update, [], ◌∷◌,
  true, false, map, ◌≢◌,
}
use acky.Alloc.{entry, Allocator, alloc_mem}
use acky.Process.{
  ProcMsg, Kernel, new_process, create_process_entry, kill, get_next_process,
  get_process_index_from_pid, send_message_to_process, pop_message, max_processes,
}
use acky.Process.Sample.{no_msg, proc, blocks, memory, three, three-IsCoherent}
use acky.Process.Schedule.{
  IsReady, IsNext, position, get_next_process-IsNext, get_next_process-hangs, position_fair,
  get_next_process_alone,
}
use acky.Process.Queue.{
  mailbox, stamp, Delivered, send_message_to_process-Delivered, send_message_to_process-refused,
  pop_message-cons, pop_message-nil,
}
use acky.Process.Fifo.{send_all, receive, receive-send_all}
use acky.Process.Entries.{
  IsCoherent, Created, create_process_entry-Created, create_process_entry_unbounded,
}
use acky.Process.Kill.{Survives, kill-Survives, kill-IsCoherent}

second-IsReady : IsReady proc 3 2
second-IsReady = record { user = omega arith; listed = omega arith; runs = refl }

found_12 : get_process_index_from_pid three 12 ≡ some 2
unfolding get_process_index_from_pid
found_12 = refl

found_11 : get_process_index_from_pid three 11 ≡ some 1
unfolding get_process_index_from_pid
found_11 = refl

found_13 : get_process_index_from_pid three 13 ≡ none
unfolding get_process_index_from_pid
found_13 = refl

get_next_process-IsNext_example :
    (j : ℕ) × (get_next_process 3 three ≡ some (j, record three { scheduler_process_at = j }))
    × IsNext proc 3 2 j
get_next_process-IsNext_example =
    get_next_process-IsNext three 2 (omega arith) (omega arith) second-IsReady

-- With process 2 waiting too, no user process is left to run.
abbrev stuck : Kernel
stuck = record three { processes = λ j. record (proc j) { waiting = true } }

get_next_process-hangs_example : get_next_process 1000 stuck ≡ none
get_next_process-hangs_example =
    get_next_process-hangs 1000 stuck (omega arith) (omega arith) (omega arith) (λ j a b. refl)

position_fair_example : (n : ℕ) × (n < 3) × (position (λ i. proc) 3 2 (suc n) ≡ some 2)
position_fair_example =
    position_fair (λ i. proc) 3 2 2 (omega arith) (omega arith) (λ i. second-IsReady)

abbrev alone : Kernel
alone = record stuck { processes = λ j. record (proc j) { waiting = false }; process_count = 1 }

get_next_process_alone_example :
    get_next_process 1 alone ≡ some (1, record alone { scheduler_process_at = 1 })
get_next_process_alone_example = get_next_process_alone alone refl (omega arith) refl

abbrev hello : ProcMsg
hello = record { from_pid = 99; msg = 72 ∷ [] }

send_message_to_process-Delivered_example :
    (k : Kernel) × (send_message_to_process three 11 hello
      ≡ (true, record { from_pid = 12; msg = 72 ∷ [] }, k))
    × Delivered three 1 hello k
send_message_to_process-Delivered_example =
    send_message_to_process-Delivered three 11 hello 1 found_11 (omega arith)

send_message_to_process-refused_example :
    send_message_to_process three 13 hello ≡ (false, hello, three)
send_message_to_process-refused_example =
    send_message_to_process-refused three 13 hello (inl found_13)

-- Process 2 has two messages.
abbrev mailed : Kernel
mailed = record three {
  processes = λ j. record (proc j) {
    ipc_queue_size = 2;
    ipc_queue = λ i. if i == 0 then hello else no_msg;
  };
}

pop_message-cons_example :
    (k : Kernel) × (pop_message mailed ≡ (some hello, k))
    × (mailbox k 2 ≡ no_msg ∷ [])
    × ((j : ℕ) → j ≢ 2 → k.processes j ≡ mailed.processes j)
    × (k.scheduler_process_at ≡ 2)
pop_message-cons_example = pop_message-cons mailed hello (no_msg ∷ []) refl

pop_message-nil_example : pop_message three ≡ (none, three)
pop_message-nil_example = pop_message-nil three refl

receive-send_all_example :
    receive 16 (record (send_all three 11 (hello ∷ no_msg ∷ [])) { scheduler_process_at = 1 })
    ≡ map (stamp three) (hello ∷ no_msg ∷ [])
receive-send_all_example =
    receive-send_all three 11 1 (hello ∷ no_msg ∷ []) found_11 refl (omega arith)

kill-IsCoherent_example : IsCoherent (kill three 11)
kill-IsCoherent_example = kill-IsCoherent three 11 three-IsCoherent

kill-Survives_example :
    ((kill three 11).process_count ≡ 2)
    × ((j : ℕ) → j < (kill three 11).process_count → Survives three 1 j (kill three 11))
kill-Survives_example = kill-Survives three 11 1 three-IsCoherent found_11

kill_moves : ((kill three 11).processes 1).mem_start ≡ 0x300064
unfolding kill get_process_index_from_pid
kill_moves = refl

-- `three` with the entry and the block that `createProcessEntry` makes of a 2048 byte image.
abbrev big_block : Allocator
big_block = record memory { mem_list = update blocks 5 (entry 0x30012c 18433); mem_index = 6 }

abbrev four : Kernel
four = record three {
  memory = big_block;
  processes = update proc 3 (new_process (proc 3) (66 ∷ []) 18433 0x30012c 43);
  process_count = 4;
}

create_fourth : create_process_entry three (66 ∷ []) 2048 ≡ done (3, four)
unfolding create_process_entry alloc_mem
create_fourth = refl

create_process_entry-Created_example : Created three (66 ∷ []) 2048 3 four
create_process_entry-Created_example =
    create_process_entry-Created three (66 ∷ []) 2048 3 four three-IsCoherent (omega arith)
      (omega arith) create_fourth

-- A table of 256 entries.
abbrev crowded : Kernel
crowded = record three { process_count = 256 }

granted_fourth : alloc_mem memory 18433 ≡ done (0x30012c, big_block)
unfolding alloc_mem
granted_fourth = refl

create_process_entry_unbounded_example :
    (idx : ℕ) × (k : Kernel) × (create_process_entry crowded (66 ∷ []) 2048 ≡ done (idx, k))
    × (max_processes ≤ idx)
    × ((k.processes idx).name ≡ 66 ∷ [])
create_process_entry_unbounded_example =
    create_process_entry_unbounded crowded (66 ∷ []) 2048 0x30012c big_block (omega arith)
      granted_fourth
