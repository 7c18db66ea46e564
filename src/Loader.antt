-- ===== src/Loader.antt =====
-- `spawnProcess` of foki/process.c: a program is read from the disk into an array on the stack, checked, and
-- copied into a new block. The array is no part of the memory here. The serial messages are not kept.
mod Tests
pub mod Spawn
use acky.Base.{
  ℕ, ◌+◌, ◌-◌, ◌*◌, ◌^◌, if◌then◌else◌, ◌==◌, ltb, leb, update, Option, none, some, Bool, true,
  false, ◌&&◌, not, List, Outcome, done, halted, ◌>>=◌,
}
use acky.Ram.{Ram}
use acky.Alloc.{Allocator}
use acky.Process.{Process, Kernel, create_process_entry}
use acky.Fs.{Storage, Stale, DriveTable, FileInfo, le32, text_at, fs_get_file_info, fs_read_file}

-- `memcpy` from the array.
abbrev pub copy_in : Ram → (start : ℕ) → (ℕ → ℕ) → (size : ℕ) → Ram
copy_in m start b size a = if leb start a && ltb a (start + size) then b (a - start) else m a

-- `processBuffer[36] != 'A' && processBuffer[37] != 'E' && processBuffer[38] != 'F'`
unfoldable pub is_refused : (ℕ → ℕ) → Bool
is_refused b = not (b 36 == b'A') && not (b 37 == b'E') && not (b 38 == b'F')

-- What follows the test: the entry of the table, its entry point, and the copy.
unfoldable pub start_process : Kernel → (ℕ → ℕ) → (size : ℕ) → Outcome (ℕ × Kernel)
start_process k b size = do
  (idx, k₁) ← create_process_entry k (text_at b 0 size) size
  let p = record (k₁.processes idx) { pc_loc = le32 b 32 }
  done (
    p.pid,
    record k₁ {
      processes = update k₁.processes idx p;
      memory = record k₁.memory { ram = copy_in k₁.memory.ram p.mem_start b size };
    },
  )

-- The returned 0 stands for a failure; `none` is a loop of the file system that still runs.
unfoldable pub spawn_process :
    ℕ
    → Storage
    → Stale
    → DriveTable
    → (path : List ℕ) → FileInfo
    → Kernel
    → Option (Outcome (ℕ × Kernel))
spawn_process fuel st stale t path info k = elim (fs_get_file_info fuel st stale t path info) [
  | none ↦ none
  | some (ok, i) ↦
      if ok
      then elim (fs_read_file fuel st stale t path stale.buffer i) [
        | none ↦ none
        | some (_, b, i') ↦ some (if is_refused b then done (0, k) else start_process k b i'.size)
      ]
      else some (done (0, k))
]
