-- ===== src/Loader/Spawn.antt =====
-- What a new process finds in its memory.
use acky.Base.{
  ℕ, ◌+◌, ◌-◌, ◌*◌, ◌^◌, ◌<◌, ◌≤◌, ◌≡◌, ◌≢◌, refl, u32, arith, if◌then◌else◌, ◌==◌, update, some,
  true, false, List, [], ◌∷◌, ◌++◌, length, done, ◌∙◌, ap, add32,
}
use acky.Alloc.Inv.{top}
use acky.Process.{Process, Kernel, create_process_entry, stack_size, max_processes}
use acky.Process.Entries.{IsCoherent, create_process_entry-Created}
use acky.Fs.{
  Storage, Stale, DriveTable, FileInfo, le32, text_at, bytes_to_block, fs_get_file_info,
  iso9660_get_file_info,
}
use acky.Fs.Blocks.{disk_byte}
use acky.Fs.Directory.{Entry}
use acky.Fs.Path.{IsPart, join}
use acky.Fs.Lookup.{Leads, root_of, iso9660_get_file_info_lem}
use acky.Fs.Read.{IsMounted, fs_read_file_lem}
use acky.Loader.{copy_in, is_refused, start_process, spawn_process}

-- A new process in front of nothing: its image is in its memory, its counter at the entry point of the
-- image, and the memory below and the other processes are as they were.
pub record Started (k : Kernel) (b : ℕ → ℕ) (size pid : ℕ) (k' : Kernel) : Type 0 where
  pub coherent : IsCoherent k'
  pub grown : k'.process_count ≡ k.process_count + 1
  pub in_table : k'.process_count ≤ max_processes
  pub pid_read : pid ≡ (k'.processes k.process_count).pid
  pub pid_made : pid ≡ add32 k.tick k.process_count
  pub place : (k'.processes k.process_count).mem_start ≡ top k.memory
  pub room : (k'.processes k.process_count).mem_size ≡ size + stack_size
  pub entry_point : (k'.processes k.process_count).pc_loc ≡ le32 b 32
  pub image : (i : ℕ) → i < size → k'.memory.ram (top k.memory + i) ≡ b i
  pub below : (a : ℕ) → a < top k.memory → k'.memory.ram a ≡ k.memory.ram a
  pub others : (j : ℕ) → j ≢ k.process_count → k'.processes j ≡ k.processes j

pub start_process-Started :
    (k : Kernel) (b : ℕ → ℕ) (size idx : ℕ) (k₁ : Kernel)
    → IsCoherent k
    → k.process_count < max_processes
    → top k.memory + size + stack_size < u32
    → create_process_entry k (text_at b 0 size) size ≡ done (idx, k₁)
    → (pid : ℕ) × (k' : Kernel) × (start_process k b size ≡ done (pid, k'))
      × Started k b size pid k'
unfolding start_process
start_process-Started k b size idx k₁ c left fits made =
    let n = create_process_entry-Created k (text_at b 0 size) size idx k₁ c left fits made in
    let p = record (k₁.processes idx) { pc_loc = le32 b 32 } in
    let at : (k₁.processes idx).mem_start ≡ top k.memory =
      ap (λ (q : Process). q.mem_start) n.entry in
    let last : idx ≡ k.process_count = n.at_end in
    let size_read : (k₁.processes idx).mem_size ≡ size + stack_size =
      ap (λ (q : Process). q.mem_size) n.entry in
    let k' : Kernel = record k₁ {
      processes = update k₁.processes idx p;
      memory = record k₁.memory { ram = copy_in k₁.memory.ram p.mem_start b size };
    } in
    (
      p.pid,
      k',
      rw made refl,
      record {
        coherent = record {
          valid = record {
            null_start = n.coherent.valid.null_start;
            null_size = n.coherent.valid.null_size;
            positive = n.coherent.valid.positive;
            bounded = n.coherent.valid.bounded;
            adjacent = n.coherent.valid.adjacent;
            non_empty = n.coherent.valid.non_empty;
            top-lt = n.coherent.valid.top-lt;
          };
          in_step = n.coherent.in_step;
          starts = λ j h. ground (arith, n.coherent.starts j);
          sizes = λ j h. ground (arith, n.coherent.sizes j);
        };
        grown = n.grown;
        in_table = n.in_table;
        pid_read = ground arith;
        pid_made = ap (λ (q : Process). q.pid) n.entry;
        place = ground arith;
        room = ground arith;
        entry_point = ground arith;
        image = λ i h. let back : top k.memory + i - top k.memory ≡ i = omega arith in ground arith;
        below = λ a h. ground (arith, ap (λ (r : ℕ → ℕ). r a) n.same_ram);
        others = λ j ne. ground (arith, n.others j);
      },
    )

-- The bytes of a file of the disk.
abbrev pub image_of : Storage → Entry → ℕ → ℕ
image_of st e i = disk_byte st (e.loc * 2048 + i)

-- What `spawnProcess` has when it tests the program: the reading of a path that leads to a file.
loaded :
    (fuel : ℕ) (st : Storage) (stale : Stale) (t : DriveTable) (bound letter : ℕ)
    (ds : List (List ℕ)) (file : List ℕ) (info : FileInfo) (e : Entry) (k : Kernel)
    → IsMounted st t letter
    → IsPart file
    → Leads st bound (root_of st) ds (file ++ (b';' ∷ b'1' ∷ [])) e
    → bound + length ds < fuel
    → 0 < e.size
    → e.size < 2 ^ 25 - 2048
    → e.loc < 2 ^ 30
    → (out : ℕ → ℕ) × (spawn_process fuel st stale t (letter ∷ b':' ∷ b'/' ∷ join ds file) info k
        ≡ some (
            if is_refused (image_of st e)
            then done (0, k)
            else start_process k out (bytes_to_block e.size)))
      × ((i : ℕ) → i < bytes_to_block e.size → out i ≡ image_of st e i)
unfolding spawn_process fs_get_file_info is_refused
loaded fuel st stale t bound letter ds file info e k mounted part leads long some_bytes small low =
    let path = letter ∷ b':' ∷ b'/' ∷ join ds file in
    let d = t.drives mounted.index in
    let size = bytes_to_block e.size in
    let i : FileInfo = record { name = file ++ (b';' ∷ b'1' ∷ []); size = size; lba_loc = e.loc } in
    let (out, i', run, same, same_size, same_loc) =
      fs_read_file_lem fuel st stale t bound letter ds file stale.buffer i e mounted part leads long
        small low in
    let found : iso9660_get_file_info fuel st stale path d info ≡ some (true, i) =
      iso9660_get_file_info_lem fuel st stale bound letter ds file d info e mounted.present
        mounted.master part leads long in
    let iso : (d.type == 0) ≡ true = ground (arith, mounted.type) in
    let first : fs_get_file_info fuel st stale t path info ≡ some (true, i) =
      rw (fs_get_file_info, mounted.listed, iso, found) refl in
    let large : 2048 ≤ size = omega arith in
    let same_answer : is_refused out ≡ is_refused (image_of st e) =
      rw
        (
          is_refused,
          same 36 (omega (arith, large)),
          same 37 (omega (arith, large)),
          same 38 (omega (arith, large)),
        )
        refl in
    (out, rw (spawn_process, first, run, same_answer, same_size) refl, same)

-- A program whose letters 36 to 38 all differ from those of `AEF` is refused: 0 is returned and the kernel
-- is as it was.
pub spawn_process_refused :
    (fuel : ℕ) (st : Storage) (stale : Stale) (t : DriveTable) (bound letter : ℕ)
    (ds : List (List ℕ)) (file : List ℕ) (info : FileInfo) (e : Entry) (k : Kernel)
    → IsMounted st t letter
    → IsPart file
    → Leads st bound (root_of st) ds (file ++ (b';' ∷ b'1' ∷ [])) e
    → bound + length ds < fuel
    → 0 < e.size
    → e.size < 2 ^ 25 - 2048
    → e.loc < 2 ^ 30
    → image_of st e 36 ≢ b'A'
    → image_of st e 37 ≢ b'E'
    → image_of st e 38 ≢ b'F'
    → spawn_process fuel st stale t (letter ∷ b':' ∷ b'/' ∷ join ds file) info k
      ≡ some (done (0, k))
unfolding is_refused
spawn_process_refused fuel st stale t bound letter ds file info e k mounted part leads long
      some_bytes small low no_a no_e no_f =
    let (out, run, same) =
      loaded fuel st stale t bound letter ds file info e k mounted part leads long some_bytes small
        low in
    let refused : is_refused (image_of st e) ≡ true =
      let a : (image_of st e 36 == b'A') ≡ false = ground arith in
      let b : (image_of st e 37 == b'E') ≡ false = ground arith in
      let c : (image_of st e 38 == b'F') ≡ false = ground arith in ground arith in
    run ∙ rw refused refl
