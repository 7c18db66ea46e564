-- ===== src/Fs.antt =====
-- The file system of foki/fs.c: the table of drives and the reading of ISO 9660. A text is the list of its
-- bytes in front of the NUL. The words of the disks are an argument, part of `Storage`; so are
-- the bytes of the stack that the code reads without having written them, part of `Stale`. The names
-- are taken to fit the arrays of 32 bytes: what a longer one overwrites is not modelled. The loops
-- over a path and a directory have no bound in the source, so they take fuel, and `none` means that
-- one of them still runs.
mod Tests
pub mod Sample
pub mod Blocks
pub mod Directory
pub mod Path
pub mod Lookup
pub mod Missing
pub mod Read
pub mod Text
use acky.Base.{
  ℕ, zero, suc, ◌+◌, ◌-◌, ◌*◌, ◌/◌, ◌%◌, ◌^◌, if◌then◌else◌, ◌==◌, ltb, leb, update, add32, mul32,
  Option, none, some, Bool, true, false, ◌&&◌, ◌||◌, List, [], ◌∷◌, ◌++◌, get_elem?, Outcome, done,
  halted, Panic,
}
use acky.Ata.{Drives, ata_disk_present, ata_read, common_read}

-- `drive`.
pub record Drive : Type 0 where
  pub name : List ℕ
  pub letter : ℕ
  pub lba_start : ℕ
  pub lba_end : ℕ
  pub loc : ℕ
  pub type : ℕ

-- `drives` and `driveCount`.
pub record DriveTable : Type 0 where
  pub drives : ℕ → Drive
  pub drive_count : ℕ

-- `fileInfo`.
pub record FileInfo : Type 0 where
  pub name : List ℕ
  pub size : ℕ
  pub lba_loc : ℕ

-- Which disks are there, and the 16-bit words of the two.
pub record Storage : Type 0 where
  pub ata : Drives
  pub disk : ℕ → ℕ
  pub slave_disk : ℕ → ℕ

-- Bytes that the code may read without having written them: behind `processedPath`, in front of
-- `dirName`, in `buffer`, in `finalFileName` and in `folderName`.
pub record Stale : Type 0 where
  pub behind_path : ℕ → ℕ
  pub before_name : ℕ → ℕ
  pub buffer : ℕ → ℕ
  pub final_file_name : List ℕ
  pub folder_name : List ℕ

-- `(uint16_t *)buffer`, and back.
abbrev pub words_of : (ℕ → ℕ) → ℕ → ℕ
words_of bytes i = bytes (2 * i) + bytes (2 * i + 1) * 2 ^ 8

abbrev pub bytes_of : (ℕ → ℕ) → ℕ → ℕ
bytes_of words k = if k % 2 == 0 then words (k / 2) % 2 ^ 8 else words (k / 2) / 2 ^ 8 % 2 ^ 8

-- `commonRead` into an array of bytes, with the words that the disk hands over for that address.
unfoldable pub read_blocks : Storage → (loc lba count : ℕ) → (ℕ → ℕ) → ℕ → ℕ
read_blocks st loc lba count buffer =
    bytes_of
      (common_read st.ata (λ i. st.disk (mul32 lba 4 * 256 + i)) loc lba count (words_of buffer)).1

-- `buffer[at] | buffer[at + 1] << 8 | buffer[at + 2] << 16 | buffer[at + 3] << 24`.
abbrev pub le32 : (ℕ → ℕ) → ℕ → ℕ
le32 b at = b at + b (at + 1) * 2 ^ 8 + b (at + 2) * 2 ^ 16 + b (at + 3) * 2 ^ 24

-- `strcmp` of two texts gives 0.
abbrev pub same_text : List ℕ → List ℕ → Bool
same_text [] [] = true
same_text [] (d ∷ ds) = false
same_text (c ∷ cs) [] = false
same_text (c ∷ cs) (d ∷ ds) = c == d && same_text cs ds

unfoldable pub add_drive :
    DriveTable → (letter : ℕ) → List ℕ → (lba_start lba_end loc type : ℕ) → ℕ × DriveTable
add_drive t letter name lba_start lba_end loc type = (
  t.drive_count,
  record t {
    drives = update t.drives t.drive_count (record {
      name = name;
      letter = letter;
      lba_start = lba_start;
      lba_end = lba_end;
      loc = loc;
      type = type;
    });
    drive_count = t.drive_count + 1;
  },
)

-- `CD001` in block 16.
unfoldable pub is_iso9660 : Storage → Stale → ℕ → Bool
is_iso9660 st stale loc =
    let b = read_blocks st loc 16 1 stale.buffer in
    b 1 == b'C' && b 2 == b'D' && b 3 == b'0' && b 4 == b'0' && b 5 == b'1'

-- `Primary Master` and `Primary Slave`.
abbrev pub primary_name : List ℕ
primary_name = 80 ∷ 114 ∷ 105 ∷ 109 ∷ 97 ∷ 114 ∷ 121 ∷ 32 ∷ 77 ∷ 97 ∷ 115 ∷ 116 ∷ 101 ∷ 114 ∷ []

abbrev pub secondary_name : List ℕ
secondary_name = 80 ∷ 114 ∷ 105 ∷ 109 ∷ 97 ∷ 114 ∷ 121 ∷ 32 ∷ 83 ∷ 108 ∷ 97 ∷ 118 ∷ 101 ∷ []

-- The loop over the four partitions, from `i` on.
unfoldable pub partition_from :
    Storage
    → Stale
    → (ℕ → ℕ)
    → (letter : ℕ) → List ℕ
    → (loc i : ℕ) → ℕ
    → DriveTable
    → ℕ × DriveTable
partition_from st stale buffer letter name loc i zero t = (0, t)
partition_from st stale buffer letter name loc i (suc left) t =
    let offset = 446 + 16 * i in
    let lba_start = le32 buffer (offset + 0x08) in
    let size = le32 buffer (offset + 0x0C) in
    let rest = partition_from st stale buffer letter name loc (i + 1) left t in
    if lba_start == 0
    then rest
    else add_drive t letter name lba_start size loc (if is_iso9660 st stale loc then 0 else 512)

unfoldable pub parse_partition_table :
    Storage → Stale → (ℕ → ℕ) → (letter : ℕ) → List ℕ → (loc : ℕ) → DriveTable → ℕ × DriveTable
parse_partition_table st stale buffer letter name loc t =
    partition_from st stale buffer letter name loc 0 4 t

-- `for (i = 0; i < driveCount; i++) if (drives[i].letter == c) return i;`, from `i` on.
unfoldable pub find_letter : (ℕ → Drive) → (c i : ℕ) → ℕ → Option ℕ
find_letter ds c i zero = none
find_letter ds c i (suc left) =
    let rest = find_letter ds c (i + 1) left in if (ds i).letter == c then some i else rest

unfoldable pub get_drive_index_from_letter : DriveTable → ℕ → Option ℕ
get_drive_index_from_letter t c = find_letter t.drives c 0 t.drive_count

-- The cell of `processedPath`: the path, `;1` and the NUL, and what lies behind the array.
abbrev pub processed_path : Stale → List ℕ → ℕ → ℕ
processed_path stale path i = elim (get_elem? (path ++ (b';' ∷ b'1' ∷ 0 ∷ [])) i) [
  | none ↦ stale.behind_path i
  | some c ↦ c
]

-- The text behind the last `/` of the path that is not its first byte, if there is one.
abbrev pub last_name : List ℕ → Option (List ℕ)
last_name [] = none
last_name (c ∷ cs) = elim (last_name cs) [
  | some t ↦ some t
  | none ↦ elim cs [ [] ↦ none | d ∷ t ↦ if d == b'/' then some t else none ]
]

-- `finalFileName`.
unfoldable pub final_name : Stale → List ℕ → List ℕ
final_name stale path = elim (last_name path) [
  | none ↦ stale.final_file_name
  | some t ↦ t ++ (b';' ∷ b'1' ∷ [])
]

-- `while (processedPath[j] != '/' && processedPath[j] != '\0')`: the characters, and the last `j`.
unfoldable pub get_name : ℕ → (ℕ → ℕ) → ℕ → Option (List ℕ × ℕ)
get_name zero p j = none
get_name (suc fuel) p j =
    let rest = get_name fuel p (j + 1) in
    if p j == b'/' || p j == 0
    then some ([], j)
    else elim rest [ none ↦ none | some (cs, k) ↦ some (p j ∷ cs, k) ]

-- The text of `n` bytes from `at` on, up to a NUL.
abbrev pub text_at : (ℕ → ℕ) → ℕ → ℕ → List ℕ
text_at b at zero = []
text_at b at (suc n) = if b at == 0 then [] else b at ∷ text_at b (at + 1) n

-- `dirName[nameLength - k]`, which lies in front of the array when the name is shorter.
abbrev pub name_end : Stale → (ℕ → ℕ) → ℕ → ℕ → ℕ
name_end stale b offset k =
    let n = b (offset + 32) in
    if leb k n then b (offset + 33 + n - k) else stale.before_name (k - n - 1)

-- What the walk through the directories knows: the last block that was found, the size of the last
-- entry that was looked at, whether one of them was a file, and whether the file was found.
pub record Search : Type 0 where
  pub last_folder_loc : ℕ
  pub file_size : ℕ
  pub last_dir_is_file : Bool
  pub found_file : Bool

-- An entry is looked at.
abbrev pub look_at : Stale → (ℕ → ℕ) → ℕ → Search → Search
look_at stale b offset s = record s {
  file_size = le32 b (offset + 10);
  last_dir_is_file =
      (name_end stale b offset 2 == b';' && name_end stale b offset 1 == b'1')
      || s.last_dir_is_file;
}

-- The `do` loop over the entries of a directory, from `offset` on.
unfoldable pub find_entry :
    ℕ → Stale → (ℕ → ℕ) → (offset : ℕ) → (folder final : List ℕ) → Search → Option Search
find_entry zero stale b offset folder final s = none
find_entry (suc fuel) stale b offset folder final s =
    let name = text_at b (offset + 33) (b (offset + 32)) in
    let looked = look_at stale b offset s in
    let next = offset + b offset in
    let rest = find_entry fuel stale b next folder final looked in
    if same_text name folder
    then some (record looked {
      last_folder_loc = le32 b (offset + 2);
      found_file = same_text name final || s.found_file;
    })
    else if b next == 0
    then some looked
    else rest

-- The outer loop: the parts of the path from `at` on. The last of them is `folderName`.
unfoldable pub walk :
    ℕ
    → Storage
    → Stale
    → (loc : ℕ) → (p : ℕ → ℕ) → List ℕ
    → (buffer : ℕ → ℕ) → (at : ℕ) → List ℕ
    → Search
    → Option (List ℕ × Search)
walk zero st stale loc p final buffer at folder s = none
walk (suc fuel) st stale loc p final buffer at folder s =
    if p at == 0 then some (folder, s) else elim (get_name fuel p at) [
      | none ↦ none
      | some (name, j) ↦
          let b = read_blocks st loc s.last_folder_loc 1 buffer in
          elim (find_entry fuel stale b 0 name final (record s { found_file = false })) [
            | none ↦ none
            | some s' ↦
                if s'.found_file
                then some (name, s')
                else walk fuel st stale loc p final b (j + 1) name s'
          ]
    ]

-- `BYTES_TO_BLOCK`.
abbrev pub bytes_to_block : ℕ → ℕ
bytes_to_block b = add32 b 2047 / 2048 * 2048

-- The flag is false for the returned -1.
unfoldable pub iso9660_get_file_info :
    ℕ → Storage → Stale → (path : List ℕ) → Drive → FileInfo → Option (Bool × FileInfo)
iso9660_get_file_info fuel st stale path d info =
    let p = processed_path stale path in
    let b = read_blocks st d.loc 16 1 stale.buffer in
    let start : Search = record {
      last_folder_loc = le32 b (156 + 2);
      file_size = 0;
      last_dir_is_file = false;
      found_file = false;
    } in
    elim (walk fuel st stale d.loc p (final_name stale path) b 3 stale.folder_name start) [
      | none ↦ none
      | some (folder, s) ↦
          if s.last_dir_is_file
          then some (
            true,
            record {
              name = folder;
              size = bytes_to_block s.file_size;
              lba_loc = s.last_folder_loc;
            },
          )
          else some (false, info)
    ]

-- The returned 0 is `true`; the flag of `iso9660GetFileInfo` is dropped.
unfoldable pub iso9660_read :
    ℕ
    → Storage
    → Stale
    → (path : List ℕ) → Drive
    → (output : ℕ → ℕ) → FileInfo
    → Option (Bool × (ℕ → ℕ) × FileInfo)
iso9660_read fuel st stale path d output info =
    elim (iso9660_get_file_info fuel st stale path d info) [
      | none ↦ none
      | some (_, i) ↦
          some (true, read_blocks st d.loc i.lba_loc (add32 i.size 2047 / 2048) output, i)
    ]

-- `path[0]`.
abbrev pub drive_letter : List ℕ → ℕ
drive_letter [] = 0
drive_letter (c ∷ cs) = c

unfoldable pub fs_read_file :
    ℕ
    → Storage
    → Stale
    → DriveTable
    → (path : List ℕ) → (buffer : ℕ → ℕ) → FileInfo
    → Option (Bool × (ℕ → ℕ) × FileInfo)
fs_read_file fuel st stale t path buffer info =
    elim (get_drive_index_from_letter t (drive_letter path)) [
      | none ↦ some (false, buffer, info)
      | some i ↦
          if (t.drives i).type == 0
          then iso9660_read fuel st stale path (t.drives i) buffer info
          else some (false, buffer, info)
    ]

unfoldable pub fs_get_file_info :
    ℕ → Storage → Stale → DriveTable → (path : List ℕ) → FileInfo → Option (Bool × FileInfo)
fs_get_file_info fuel st stale t path info =
    elim (get_drive_index_from_letter t (drive_letter path)) [
      | none ↦ some (false, info)
      | some i ↦
          if (t.drives i).type == 0
          then iso9660_get_file_info fuel st stale path (t.drives i) info
          else some (false, info)
    ]

-- One drive of `initFS`: its first sector is parsed, for the letter with the number `count`.
abbrev pub init_drive :
    Storage → Stale → (master : Bool) → List ℕ → (loc : ℕ) → ℕ × DriveTable → ℕ × DriveTable
init_drive st stale master name loc (count, t) =
    if ata_disk_present st.ata master
    then (let disk = if master then st.disk else st.slave_disk in
        let b = bytes_of (ata_read st.ata disk master (words_of stale.buffer) 0 1).1 in
        (count + 1, (parse_partition_table st stale b (b'A' + count) name loc t).1))
    else (count, t)

unfoldable pub init_fs : Storage → Stale → DriveTable → Outcome DriveTable
init_fs st stale t =
    let (count, t') =
      init_drive st stale false secondary_name 1 (init_drive st stale true primary_name 0 (0, t)) in
    if count == 0 then halted Panic.no_drives else done t'
