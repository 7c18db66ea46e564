-- ===== src/Process/Kill.antt =====
-- What `kill` does to the table, the block list and the memory of the processes that are left.
use acky.Base.{
  ℕ, zero, suc, ◌+◌, ◌-◌, ◌≤◌, ◌<◌, ◌≡◌, ◌≢◌, refl, arith, ◌==◌, inl, inr, Bool-cases, ltb, some,
  none, Option-cases, shift_down, shift_down-below, shift_down-within,
}
use acky.Alloc.{free_mem}
use acky.Alloc.Inv.{top, end_of, end-le-top}
use acky.Alloc.Release.{Released}
use acky.Alloc.Content.{free_mem-Released, Released-contents, old_index}
use acky.Process.{Process, Kernel, lower_process, find_pid, get_process_index_from_pid, kill}
use acky.Process.Entries.{IsCoherent, start_pos}

-- The search returns the first user process with the pid.
pub record IsHolder (ps : ℕ → Process) (pid i left idx : ℕ) : Type 0 where
  pub from : i ≤ idx
  pub below : idx < i + left
  pub hit : (ps idx).pid ≡ pid
  pub first : (j : ℕ) → i ≤ j → j < idx → (ps j).pid ≢ pid

find_pid-IsHolder :
    (ps : ℕ → Process) (pid i left idx : ℕ)
    → find_pid ps pid i left ≡ some idx
    → IsHolder ps pid i left idx
unfolding find_pid
find_pid-IsHolder ps pid i zero idx h = absurd (ground arith)
find_pid-IsHolder ps pid i (suc left) idx h = elim (Bool-cases ((ps i).pid == pid)) [
  | inl here ↦ record {
    from = ground arith;
    below = ground arith;
    hit = ground arith;
    first = λ j a b. absurd (ground arith);
  }
  | inr further ↦
      let r = find_pid-IsHolder ps pid (i + 1) left idx (ground arith) in
      record {
        from = omega (arith, r.from);
        below = omega (arith, r.below);
        hit = r.hit;
        first = λ j a b. elim (Bool-cases (i == j)) [
          | inl e ↦ ground arith
          | inr ne ↦ r.first j (ground arith) b
        ];
      }
]

-- A found index is that of a user process of the table.
pub index-IsHolder :
    (k : Kernel) (pid idx : ℕ)
    → get_process_index_from_pid k pid ≡ some idx
    → (1 ≤ idx) × (idx < k.process_count) × ((k.processes idx).pid ≡ pid)
unfolding get_process_index_from_pid
index-IsHolder k pid idx h =
    let r = find_pid-IsHolder k.processes pid 1 (k.process_count - 1) idx h in
    (r.from, omega (arith, r.below), r.hit)

-- A pid that no user process has kills nothing.
pub kill-unknown : (k : Kernel) (pid : ℕ) → get_process_index_from_pid k pid ≡ none → kill k pid ≡ k
unfolding kill
kill-unknown k pid unknown = ground arith

-- What the killing of the process at an index leaves.
killed : Kernel → ℕ → Kernel
killed k idx = record k {
  memory = (free_mem k.memory (k.processes idx).mem_start).1;
  processes =
      shift_down (lower_process (k.processes idx).mem_size) k.processes idx
        (k.process_count - 1 - idx);
  process_count = k.process_count - 1;
}

kill-found :
    (k : Kernel) (pid idx : ℕ)
    → get_process_index_from_pid k pid ≡ some idx
    → kill k pid ≡ killed k idx
unfolding kill killed
kill-found k pid idx found = ground arith

module _ (k : Kernel) (c : IsCoherent k) (idx : ℕ) (listed : idx < k.process_count) where
  -- `freeMem` takes out the victim's block.
  memory-killed : Released k.memory (idx + 2) (killed k idx).memory
  unfolding killed
  memory-killed =
      let at = c.starts idx listed in
      let (m, freed, r) =
        free_mem-Released k.memory (idx + 2) c.valid (omega arith)
          (omega (arith, c.in_step, listed)) (start_pos k idx c listed) in
      let e : (free_mem k.memory (k.processes idx).mem_start).1 ≡ m = ground arith in rw e r

  processes-before : (j : ℕ) → j < idx → (killed k idx).processes j ≡ k.processes j
  unfolding killed
  processes-before j h =
      shift_down-below (lower_process (k.processes idx).mem_size) k.processes idx
        (k.process_count - 1 - idx) j h

  processes-behind :
      (j : ℕ)
      → idx ≤ j
      → j < k.process_count - 1
      → (killed k idx).processes j ≡ lower_process (k.processes idx).mem_size (k.processes (j + 1))
  unfolding killed
  processes-behind j a b =
      shift_down-within (lower_process (k.processes idx).mem_size) k.processes idx
        (k.process_count - 1 - idx) j a (omega arith)

  -- The process's new start is that of its block's new entry.
  starts-behind :
      (j : ℕ)
      → idx ≤ j
      → j < k.process_count - 1
      → ((killed k idx).processes j).mem_start ≡ ((killed k idx).memory.mem_list (j + 2)).start_addr
  starts-behind j a b =
      let r = memory-killed in
      let e : j + 2 + 1 ≡ j + 1 + 2 = omega arith in
      let block = r.behind_start (j + 2) (omega arith) (omega (arith, c.in_step)) in
      let start = c.starts (j + 1) (omega arith) in
      let size = c.sizes idx listed in
      let low : end_of (k.memory.mem_list (j + 1 + 2)) ≤ top k.memory =
        end-le-top c.valid (j + 1 + 2) (omega (arith, c.in_step)) in
      ground (arith, processes-behind j a b, c.valid.top-lt)

  count-killed : (killed k idx).process_count ≡ k.process_count - 1
  unfolding killed
  count-killed = refl

  killed-IsCoherent : IsCoherent (killed k idx)
  killed-IsCoherent =
      let r = memory-killed in
      record {
        valid = r.valid;
        in_step = omega (arith, r.shrunk, count-killed, c.in_step, listed);
        starts = λ j h. elim (Bool-cases (ltb j idx)) [
          | inl below ↦ ground (arith, processes-before j, r.before (j + 2), c.starts j)
          | inr above ↦ starts-behind j (ground arith) (omega (arith, count-killed))
        ];
        sizes = λ j h. elim (Bool-cases (ltb j idx)) [
          | inl below ↦ ground (arith, processes-before j, r.before (j + 2), c.sizes j)
          | inr above ↦
              let e : j + 2 + 1 ≡ j + 1 + 2 = omega arith in
              ground (
                arith,
                count-killed,
                c.in_step,
                processes-behind j,
                r.behind_size (j + 2),
                c.sizes (j + 1),
              )
        ];
      }

  -- But for the place of its memory a survivor's entry is what it was.
  killed-entry :
      (j : ℕ)
      → j < (killed k idx).process_count
      → (killed k idx).processes j ≡ record (k.processes (old_index idx j)) {
        mem_start = ((killed k idx).processes j).mem_start;
      }
  killed-entry j h = elim (Bool-cases (ltb j idx)) [
    | inl below ↦ ground (arith, processes-before j)
    | inr above ↦ ground (arith, processes-behind j, count-killed)
  ]

  killed-bytes :
      (j off : ℕ)
      → j < (killed k idx).process_count
      → off < ((killed k idx).processes j).mem_size
      → (killed k idx).memory.ram (((killed k idx).processes j).mem_start + off)
        ≡ k.memory.ram ((k.processes (old_index idx j)).mem_start + off)
  killed-bytes j off h inside =
      let d = killed-IsCoherent in
      let e : old_index (idx + 2) (j + 2) ≡ old_index idx j + 2 = ground arith in
      let old : old_index idx j < k.process_count = ground (arith, count-killed) in
      let (_, kept) =
        Released-contents k.memory (killed k idx).memory (idx + 2) c.valid (omega arith)
          (omega (arith, c.in_step, listed)) memory-killed (j + 2) off (omega (arith, d.in_step))
          (ground (arith, d.sizes j)) in
      ground (arith, d.starts j, c.starts (old_index idx j))

-- What a process that is not killed keeps.
pub record Survives (k : Kernel) (idx j : ℕ) (k' : Kernel) : Type 0 where
  pub entry :
      k'.processes j
      ≡ record (k.processes (old_index idx j)) { mem_start = (k'.processes j).mem_start }
  pub bytes :
      (off : ℕ)
      → off < (k'.processes j).mem_size
      → k'.memory.ram ((k'.processes j).mem_start + off)
        ≡ k.memory.ram ((k.processes (old_index idx j)).mem_start + off)

-- In a coherent kernel, killing the pid of a process takes that process alone out of the table:
-- every other process keeps its order, its entry but for the place of its memory, and every byte
-- of that memory, although its block has moved.
pub kill-Survives :
    (k : Kernel) (pid idx : ℕ)
    → IsCoherent k
    → get_process_index_from_pid k pid ≡ some idx
    → ((kill k pid).process_count ≡ k.process_count - 1)
      × ((j : ℕ) → j < (kill k pid).process_count → Survives k idx j (kill k pid))
kill-Survives k pid idx c found =
    let (user, listed, hit) = index-IsHolder k pid idx found in
    rw (kill-found k pid idx found) (
      count-killed k c idx listed,
      λ j h. record {
        entry = killed-entry k c idx listed j h;
        bytes = λ off inside. killed-bytes k c idx listed j off h inside;
      },
    )

-- `kill` keeps the kernel coherent, whatever pid it is given.
pub kill-IsCoherent : (k : Kernel) (pid : ℕ) → IsCoherent k → IsCoherent (kill k pid)
kill-IsCoherent k pid c = elim (Option-cases (get_process_index_from_pid k pid)) [
  | inl unknown ↦ rw (kill-unknown k pid unknown) c
  | inr (idx, found) ↦
      rw (kill-found k pid idx found) (killed-IsCoherent k c idx (index-IsHolder k pid idx found).1)
]
