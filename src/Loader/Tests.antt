-- ===== src/Loader/Tests.antt =====
-- Tests of `spawnProcess`, and its theorems at a concrete disk and kernel.
use acky.Base.{◌≡◌, arith, some, done, [], ◌∷◌, update}
use acky.Process.{Kernel, new_process}
use acky.Process.Sample.{proc, three}
use acky.Alloc.{entry}
use acky.Fs.Sample.{storage, stale, table, no_info, file_g, g-Leads, mounted}
use acky.Loader.{spawn_process}
use acky.Loader.Spawn.{spawn_process_refused}

-- `three` with the new process.
abbrev grown : Kernel
grown = record three {
  memory = record three.memory {
    mem_list = update three.memory.mem_list 5 (entry 0x30012C 18433);
    mem_index = 6;
  };
  processes = update proc 3 (new_process (proc 3) (b'P' ∷ []) 18433 0x30012C 43);
  process_count = 4;
}

spawn_process_refused_example :
    spawn_process 9 storage stale table (b'A' ∷ b':' ∷ b'/' ∷ b'D' ∷ b'/' ∷ b'G' ∷ []) no_info three
    ≡ some (done (0, three))
spawn_process_refused_example =
    spawn_process_refused 9 storage stale table 4 b'A' ((b'D' ∷ []) ∷ []) (b'G' ∷ []) no_info file_g
      three mounted (omega arith, omega arith, tt) g-Leads (omega arith) (omega arith) (omega arith)
      (omega arith) (omega arith) (omega arith) (omega arith)
