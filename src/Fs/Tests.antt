-- ===== src/Fs/Tests.antt =====
-- Tests of the file system, and its theorems on a small disk.
use acky.Base.{ℕ, ◌+◌, ◌*◌, ◌<◌, ◌≡◌, refl, arith, if◌then◌else◌, ◌==◌, inl, some, true, [], ◌∷◌}
use acky.Fs.{Storage, FileInfo, bytes_to_block, fs_read_file, iso9660_get_file_info}
use acky.Fs.Blocks.{disk_byte}
use acky.Fs.Lookup.{IsDirectory}
use acky.Fs.Read.{fs_read_file_lem}
use acky.Fs.Sample.{
  words, storage, stale, table, drive_a, no_info, file_f, file_g, f-Leads, mounted,
}
use acky.Fs.Missing.{iso9660_get_file_info_missing}

fs_read_file_lem_example :
    (out : ℕ → ℕ) × (i : FileInfo) × (fs_read_file 9 storage stale table
        (b'A' ∷ b':' ∷ b'/' ∷ b'D' ∷ b'/' ∷ b'F' ∷ [])
        stale.buffer
        no_info
      ≡ some (true, out, i))
    × ((k : ℕ) → k < bytes_to_block 40 → out k ≡ disk_byte storage (23 * 2048 + k))
    × (i.size ≡ bytes_to_block 40)
    × (i.lba_loc ≡ 23)
fs_read_file_lem_example =
    fs_read_file_lem 9 storage stale table 4 b'A' ((b'D' ∷ []) ∷ []) (b'F' ∷ []) stale.buffer
      no_info file_f mounted (omega arith, omega arith, tt) f-Leads (omega arith) (omega arith)
      (omega arith)

-- The disk whose root directory is block 22.
abbrev flat : Storage
flat = record storage { disk = λ i. if i == 16463 then 22 else words i }

flat-IsDirectory : IsDirectory flat 22 (file_f ∷ file_g ∷ [])
flat-IsDirectory = record {
  small = omega arith;
  holds = (
    record {
      record_length = refl;
      positive = omega arith;
      name_length = refl;
      name = (refl, (refl, (refl, tt)));
      loc = refl;
      size = refl;
    },
    (
      record {
        record_length = refl;
        positive = omega arith;
        name_length = refl;
        name = (refl, (refl, (refl, tt)));
        loc = refl;
        size = refl;
      },
      refl,
    ),
  );
  fits = (omega arith, (omega arith, omega arith));
}

iso9660_get_file_info_missing_example :
    (wrong : FileInfo) × (iso9660_get_file_info 9 flat stale
        (b'A' ∷ b':' ∷ b'/' ∷ b'H' ∷ [])
        drive_a
        no_info
      ≡ some (true, wrong))
    × (wrong.lba_loc ≡ 22)
iso9660_get_file_info_missing_example =
    iso9660_get_file_info_missing 9 flat stale b'A' (b'H' ∷ []) drive_a no_info file_f (file_g ∷ [])
      refl refl (omega arith, omega arith, tt) flat-IsDirectory refl (inl (b'F' ∷ [], refl)) refl
      (omega arith)
