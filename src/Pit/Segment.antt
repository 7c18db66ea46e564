-- ===== src/Pit/Segment.antt =====
-- The segment that a process runs in, against the memory that it was given.
use acky.Base.{ℕ, suc, ◌+◌, ◌*◌, ◌^◌, ◌<◌, ◌≡◌, u32, arith, add32}
use acky.Gdt.{Descriptors, set_ldt_entry}
use acky.Gdt.Decode.{base_of, length_of, set_ldt_entry-Describes}
use acky.Process.{Process, Kernel, stack_size}
use acky.Process.Entries.{IsCoherent}
use acky.Pit.{set_process_ldt}

-- The data segment of a process starts where its memory starts, and its length in bytes is 4096
-- times one more than the memory size plus 16385, as the limit is given in bytes and read in pages.
pub set_process_ldt-length :
    (ldt : Descriptors) (p : Process)
    → p.mem_start < u32
    → p.mem_size + stack_size < 2 ^ 20
    → (base_of (set_process_ldt ldt p 1) ≡ p.mem_start)
      × (length_of (set_process_ldt ldt p 1) ≡ (p.mem_size + stack_size + 1) * 4096)
unfolding set_process_ldt
set_process_ldt-length ldt p start size =
    let whole : add32 p.mem_size stack_size ≡ p.mem_size + stack_size = omega arith in
    let code = set_ldt_entry ldt 0 p.mem_start (add32 p.mem_size stack_size) 0xFA 0xCF in
    let (d, _) =
      set_ldt_entry-Describes code 1 p.mem_start (add32 p.mem_size stack_size) 0xF2 0xCF start
        (omega arith) in
    (d.base_read, ground (arith, d.limit_read, d.flags_read))

-- In a coherent kernel, the data segment of every process but the last one, for a memory size below
-- 1032191 bytes, reaches beyond its own memory into that of the next process.
pub set_process_ldt-overlap :
    (ldt : Descriptors) (k : Kernel) (j : ℕ)
    → IsCoherent k
    → suc j < k.process_count
    → (k.processes j).mem_start < u32
    → (k.processes j).mem_size + stack_size < 2 ^ 20
    → (k.processes (suc j)).mem_start
      < base_of (set_process_ldt ldt (k.processes j) 1)
        + length_of (set_process_ldt ldt (k.processes j) 1)
set_process_ldt-overlap ldt k j c listed start size =
    let (base, length) = set_process_ldt-length ldt (k.processes j) start size in
    let next : suc j + 2 ≡ suc (j + 2) = omega arith in
    ground (arith, c.starts j, c.starts (suc j), c.sizes j, c.in_step, c.valid.adjacent (j + 2))
