-- ===== src/Fs/Sample.antt =====
-- A small disk, for the tests.
use acky.Base.{ℕ, ◌+◌, ◌*◌, ◌≡◌, refl, arith, if◌then◌else◌, ◌==◌, some, true, false, [], ◌∷◌}
use acky.Fs.{Storage, Stale, Drive, DriveTable, FileInfo, get_drive_index_from_letter, find_letter}
use acky.Fs.Directory.{Entry}
use acky.Fs.Lookup.{IsDirectory, Leads, root_of}
use acky.Fs.Read.{IsMounted}

-- Block 16 names block 20 as the root, which lists the directory `D` in block 22. That lists `F;1` of 40
-- bytes in block 23, a program `P` that starts at 64, and `G;1` of 2 bytes in block 24.
abbrev pub words : ℕ → ℕ
words i =
    if i == 16463
    then 20
    else if i == 20480
    then 34
    else if i == 20481
    then 22
    else if i == 20496
    then 1 + b'D' * 256
    else if i == 22528
    then 36
    else if i == 22529
    then 23
    else if i == 22533
    then 40
    else if i == 22544
    then 3 + b'F' * 256
    else if i == 22545
    then b';' + b'1' * 256
    else if i == 22546
    then 36
    else if i == 22547
    then 24
    else if i == 22551
    then 2
    else if i == 22562
    then 3 + b'G' * 256
    else if i == 22563
    then b';' + b'1' * 256
    else if i == 23552
    then b'P'
    else if i == 23568
    then 64
    else if i == 23570
    then b'A' + b'E' * 256
    else if i == 23571
    then b'F'
    else if i == 24576
    then b'h' + b'i' * 256
    else 0

abbrev pub storage : Storage
storage = record {
  ata = record { primary_master_present = true; primary_slave_present = false };
  disk = words;
  slave_disk = λ i. 0;
}

abbrev pub stale : Stale
stale = record {
  behind_path = λ i. 0;
  before_name = λ i. 0;
  buffer = λ i. 0xCC;
  final_file_name = [];
  folder_name = [];
}

abbrev pub drive_a : Drive
drive_a = record { name = []; letter = b'A'; lba_start = 1; lba_end = 9; loc = 0; type = 0 }

abbrev pub table : DriveTable
table = record { drives = λ i. drive_a; drive_count = 1 }

abbrev pub no_info : FileInfo
no_info = record { name = []; size = 0; lba_loc = 0 }

abbrev pub dir_d : Entry
dir_d = record { name = b'D' ∷ []; loc = 22; size = 0; length = 34 }

abbrev pub file_f : Entry
file_f = record { name = b'F' ∷ b';' ∷ b'1' ∷ []; loc = 23; size = 40; length = 36 }

abbrev pub file_g : Entry
file_g = record { name = b'G' ∷ b';' ∷ b'1' ∷ []; loc = 24; size = 2; length = 36 }

pub root-IsDirectory : IsDirectory storage 20 (dir_d ∷ [])
root-IsDirectory = record {
  small = omega arith;
  holds = (
    record {
      record_length = refl;
      positive = omega arith;
      name_length = refl;
      name = (refl, tt);
      loc = refl;
      size = refl;
    },
    refl,
  );
  fits = (omega arith, omega arith);
}

pub d-IsDirectory : IsDirectory storage 22 (file_f ∷ file_g ∷ [])
d-IsDirectory = record {
  small = omega arith;
  holds = (
    record {
      record_length = refl;
      positive = omega arith;
      name_length = refl;
      name = (refl, (refl, (refl, tt)));
      loc = refl;
      size = refl;
    },
    (
      record {
        record_length = refl;
        positive = omega arith;
        name_length = refl;
        name = (refl, (refl, (refl, tt)));
        loc = refl;
        size = refl;
      },
      refl,
    ),
  );
  fits = (omega arith, (omega arith, omega arith));
}

pub f-Leads : Leads storage 4 (root_of storage) ((b'D' ∷ []) ∷ []) (b'F' ∷ b';' ∷ b'1' ∷ []) file_f
f-Leads = (
  dir_d ∷ [],
  dir_d,
  root-IsDirectory,
  refl,
  omega arith,
  omega arith,
  (omega arith, omega arith, tt),
  λ e. ground arith,
  (file_f ∷ file_g ∷ [], d-IsDirectory, refl, refl, omega arith, omega arith),
)

pub g-Leads : Leads storage 4 (root_of storage) ((b'D' ∷ []) ∷ []) (b'G' ∷ b';' ∷ b'1' ∷ []) file_g
g-Leads = (
  dir_d ∷ [],
  dir_d,
  root-IsDirectory,
  refl,
  omega arith,
  omega arith,
  (omega arith, omega arith, tt),
  λ e. ground arith,
  (file_f ∷ file_g ∷ [], d-IsDirectory, refl, refl, omega arith, omega arith),
)

pub letter_a : get_drive_index_from_letter table b'A' ≡ some 0
unfolding get_drive_index_from_letter find_letter
letter_a = refl

pub mounted : IsMounted storage table b'A'
mounted = record { present = refl; index = 0; listed = letter_a; type = refl; master = refl }
