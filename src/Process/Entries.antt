-- ===== src/Process/Entries.antt =====
-- The process table and the block list in step: block `j + 2` is the memory of process `j`, behind
-- the null entry and the kernel's block.
use acky.Base.{
  ℕ, ◌+◌, ◌≤◌, ◌<◌, ◌≡◌, ◌≢◌, refl, u32, arith, ◌==◌, inl, inr, Bool-cases, List, update, add32,
  Outcome, done, halted,
}
use acky.Alloc.{Allocator, alloc_mem}
use acky.Alloc.Inv.{IsValid, top, end_of, end-le-start}
use acky.Alloc.Grant.{Granted, alloc_mem-Granted}
use acky.Process.{Kernel, new_process, stack_size, create_process_entry, max_processes}

pub record IsCoherent (k : Kernel) : Type 0 where
  pub valid : IsValid k.memory
  pub in_step : k.memory.mem_index ≡ k.process_count + 2
  pub starts :
      (j : ℕ)
      → j < k.process_count
      → (k.processes j).mem_start ≡ (k.memory.mem_list (j + 2)).start_addr
  pub sizes :
      (j : ℕ) → j < k.process_count → (k.processes j).mem_size ≡ (k.memory.mem_list (j + 2)).size

-- No process's block starts at 0, since the kernel's lies in front of it.
pub start_pos :
    (k : Kernel) (j : ℕ)
    → IsCoherent k
    → j < k.process_count
    → 0 < (k.memory.mem_list (j + 2)).start_addr
start_pos k j c h = ground (
  arith,
  c.valid.non_empty 1,
  end-le-start k.memory.mem_list k.memory.mem_index 1 (j + 2) c.valid.adjacent,
  c.in_step,
)

-- The memory of a process ends no later than that of any later process starts, and lies behind the
-- kernel's block.
pub processes_disjoint :
    (k : Kernel) (i j : ℕ)
    → IsCoherent k
    → i < j
    → j < k.process_count
    → ((k.processes i).mem_start + (k.processes i).mem_size ≤ (k.processes j).mem_start)
      × (end_of (k.memory.mem_list 1) ≤ (k.processes i).mem_start)
processes_disjoint k i j c lt h = (
  ground (
    arith,
    c.starts i,
    c.starts j,
    c.sizes i,
    c.in_step,
    end-le-start k.memory.mem_list k.memory.mem_index (i + 2) (j + 2) c.valid.adjacent,
  ),
  ground (
    arith,
    c.starts i,
    c.in_step,
    end-le-start k.memory.mem_list k.memory.mem_index 1 (i + 2) c.valid.adjacent,
  ),
)

-- What a new process finds: the next index, a block of its image and stack at the top of memory,
-- and its pid; no other process changes.
pub record Created (k : Kernel) (name : List ℕ) (file_size idx : ℕ) (k' : Kernel) : Type 0 where
  pub coherent : IsCoherent k'
  pub at_end : idx ≡ k.process_count
  pub grown : k'.process_count ≡ k.process_count + 1
  pub entry :
      k'.processes idx
      ≡ new_process
          (k.processes k.process_count)
          name
          (file_size + stack_size)
          (top k.memory)
          (add32 k.tick k.process_count)
  pub others : (j : ℕ) → j ≢ idx → k'.processes j ≡ k.processes j
  pub same_ram : k'.memory.ram ≡ k.memory.ram
  pub in_table : k'.process_count ≤ max_processes

created_kernel : Kernel → List ℕ → ℕ → ℕ → Allocator → Kernel
created_kernel k name size start memory = record k {
  memory = memory;
  processes =
      update k.processes k.process_count
        (new_process (k.processes k.process_count) name size start (add32 k.tick k.process_count));
  process_count = k.process_count + 1;
}

create_process_entry-inversion :
    (k : Kernel) (name : List ℕ) (file_size idx : ℕ) (k' : Kernel)
    → create_process_entry k name file_size ≡ done (idx, k')
    → (start : ℕ) × (memory : Allocator) × (alloc_mem k.memory (add32 file_size stack_size)
        ≡ done (start, memory))
      × (idx ≡ k.process_count)
      × (k' ≡ created_kernel k name (add32 file_size stack_size) start memory)
unfolding create_process_entry created_kernel
create_process_entry-inversion k name file_size idx k' h =
    go (alloc_mem k.memory (add32 file_size stack_size)) refl
  where
    go :
        (o : Outcome (ℕ × Allocator))
        → alloc_mem k.memory (add32 file_size stack_size) ≡ o
        → (start : ℕ) × (memory : Allocator) × (alloc_mem k.memory (add32 file_size stack_size)
            ≡ done (start, memory))
          × (idx ≡ k.process_count)
          × (k' ≡ created_kernel k name (add32 file_size stack_size) start memory)
    go (done (start, memory)) e = (start, memory, e, ground arith, ground arith)
    go (halted p) e = absurd (ground arith)

created_kernel-IsCoherent :
    (k : Kernel) (name : List ℕ) (size start : ℕ) (memory : Allocator)
    → IsCoherent k
    → Granted k.memory size start memory
    → IsCoherent (created_kernel k name size start memory)
unfolding created_kernel
created_kernel-IsCoherent k name size start memory c g = record {
  valid = g.valid;
  in_step = omega (arith, g.grown, c.in_step);
  starts = λ j h. elim (Bool-cases (k.process_count == j)) [
    | inl last ↦
        let e : k.memory.mem_index ≡ j + 2 = ground (arith, c.in_step) in
        ground (arith, g.block_start, g.at_top)
    | inr earlier ↦ ground (arith, g.kept (j + 2), c.starts j, c.in_step)
  ];
  sizes = λ j h. elim (Bool-cases (k.process_count == j)) [
    | inl last ↦
        let e : k.memory.mem_index ≡ j + 2 = ground (arith, c.in_step) in
        ground (arith, g.block_size)
    | inr earlier ↦ ground (arith, g.kept (j + 2), c.sizes j, c.in_step)
  ];
}

-- In a coherent kernel whose table has one of its 256 entries left, `createProcessEntry` for an image that fits
-- the address space leaves the kernel coherent and the table within its bounds: the new process is the last of the table, and owns a block of its image and
-- 16385 bytes of stack directly behind all others.
pub create_process_entry-Created :
    (k : Kernel) (name : List ℕ) (file_size idx : ℕ) (k' : Kernel)
    → IsCoherent k
    → k.process_count < max_processes
    → top k.memory + file_size + stack_size < u32
    → create_process_entry k name file_size ≡ done (idx, k')
    → Created k name file_size idx k'
unfolding created_kernel
create_process_entry-Created k name file_size idx k' c left fits h =
    let (start, memory, granted, at, same) =
      create_process_entry-inversion k name file_size idx k' h in
    let whole : add32 file_size stack_size ≡ file_size + stack_size = omega arith in
    let g =
      alloc_mem-Granted k.memory (add32 file_size stack_size) start memory c.valid (omega arith)
        (omega arith) granted in
    rw (same, at)
      (record {
        coherent = created_kernel-IsCoherent k name (add32 file_size stack_size) start memory c g;
        at_end = refl;
        grown = refl;
        entry = ground (arith, g.at_top);
        others = λ j ne. ground arith;
        same_ram = g.same_ram;
        in_table = omega (arith, left);
      })

-- No test bounds the table: with 256 or more processes, whenever the block list and the memory have
-- room, `createProcessEntry` still succeeds, and writes the entry behind the end of `processes`.
pub create_process_entry_unbounded :
    (k : Kernel) (name : List ℕ) (file_size start : ℕ) (memory : Allocator)
    → max_processes ≤ k.process_count
    → alloc_mem k.memory (add32 file_size stack_size) ≡ done (start, memory)
    → (idx : ℕ) × (k' : Kernel) × (create_process_entry k name file_size ≡ done (idx, k'))
      × (max_processes ≤ idx)
      × ((k'.processes idx).name ≡ name)
unfolding create_process_entry created_kernel
create_process_entry_unbounded k name file_size start memory many granted = (
  k.process_count,
  created_kernel k name (add32 file_size stack_size) start memory,
  ground arith,
  many,
  ground arith,
)
