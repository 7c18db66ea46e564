-- ===== src/Alloc.antt =====
-- The block list of foki/memory.c. `mem_list` is the array of 512 entries, `mem_index` the number
-- of those in use; `system_memory` is what `getSystemMemory` returns. `herr` never returns, so
-- `alloc_mem` has an outcome; the -1 of `freeMem` is `none`.
mod Tests
pub mod Inv
pub mod Grant
pub mod Search
pub mod Release
pub mod Content
use acky.Base.{
  ℕ, zero, suc, ◌+◌, ◌-◌, if◌then◌else◌, ◌==◌, ltb, leb, update, add32, sub32, Option, none, some,
  Outcome, done, halted, Panic, ◌>>=◌, shift_down,
}
use acky.Ram.{Ram, memcpy}

pub record MemEntry : Type 0 where
  pub start_addr : ℕ
  pub size : ℕ

abbrev pub entry : ℕ → ℕ → MemEntry
entry start size = record { start_addr = start; size = size }

pub record Allocator : Type 0 where
  pub ram : Ram
  pub mem_list : ℕ → MemEntry
  pub mem_index : ℕ
  pub system_memory : ℕ

abbrev pub mem_list_size : ℕ
mem_list_size = 512

unfoldable pub alloc_mem : Allocator → ℕ → Outcome (ℕ × Allocator)
alloc_mem s size =
    let last = s.mem_list (s.mem_index - 1) in
    let start = add32 last.start_addr last.size in
    if ltb s.system_memory (add32 last.start_addr size)
    then halted Panic.out_of_memory
    else if leb mem_list_size s.mem_index
    then halted Panic.memory_list_overflow
    else done (
      start,
      record s {
        mem_list = update s.mem_list s.mem_index (entry start size);
        mem_index = s.mem_index + 1;
      },
    )

-- The null entry, then 3 MB for the kernel.
unfoldable pub init_mem : Allocator → Outcome Allocator
unfolding alloc_mem
init_mem s = do
  (_, s') ← alloc_mem (record s { mem_list = update s.mem_list 0 (entry 0 0) }) 0x300000
  done s'

-- `for (i = 0; i < memIndex; i++) if (memList[i].startAddr == memStart)`, from `i` on.
unfoldable pub find_block : (ℕ → MemEntry) → ℕ → ℕ → ℕ → Option ℕ
find_block l addr i zero = none
find_block l addr i (suc left) =
    let rest = find_block l addr (i + 1) left in if (l i).start_addr == addr then some i else rest

abbrev pub lower : ℕ → MemEntry → MemEntry
lower size e = entry (sub32 e.start_addr size) e.size

-- The body of the `if` in `freeMem`: the loop `memList[j + 1].startAddr -= size;
-- memList[j] = memList[j + 1];` from `i` on, then the copy of the memory behind the block.
unfoldable pub release : Allocator → ℕ → ℕ → Allocator
unfolding shift_down
release s start i =
    let size = (s.mem_list i).size in
    let index = s.mem_index - 1 in
    let list = shift_down (lower size) s.mem_list i (index - i) in
    let end = add32 (list index).start_addr (list index).size in
    record s {
      ram = memcpy s.ram start (add32 start size) (sub32 end start);
      mem_list = list;
      mem_index = index;
    }

unfoldable pub free_mem : Allocator → ℕ → Option ℕ × Allocator
unfolding find_block release
free_mem s start =
    if start == 0 then (none, s) else elim (find_block s.mem_list start 0 s.mem_index) [
      | none ↦ (none, s)
      | some i ↦ (some start, release s start i)
    ]
