-- ===== src/Fs/Read.antt =====
-- What `fsReadFile` puts into the buffer.
use acky.Base.{
  ℕ, ◌+◌, ◌-◌, ◌*◌, ◌^◌, ◌/◌, ◌<◌, ◌≡◌, refl, arith, ◌==◌, some, true, List, [], ◌∷◌, ◌++◌, length,
  add32, ◌∙◌, ap,
}
use acky.Fs.{
  Storage, Stale, DriveTable, FileInfo, read_blocks, get_drive_index_from_letter, bytes_to_block,
  iso9660_get_file_info, iso9660_read, fs_read_file,
}
use acky.Fs.Blocks.{disk_byte, read_blocks_lem}
use acky.Fs.Directory.{Entry}
use acky.Fs.Path.{IsPart, join}
use acky.Fs.Lookup.{Leads, root_of, iso9660_get_file_info_lem}

-- The letter belongs to an ISO 9660 drive on the master disk.
pub record IsMounted (st : Storage) (t : DriveTable) (letter : ℕ) : Type 0 where
  pub present : st.ata.primary_master_present ≡ true
  pub index : ℕ
  pub listed : get_drive_index_from_letter t letter ≡ some index
  pub type : (t.drives index).type ≡ 0
  pub master : (t.drives index).loc ≡ 0

-- Where the directories of a path lead to a file of less than 32 MB, `fsReadFile` of the path succeeds:
-- the buffer gets the blocks of the file from the disk, and the file's block and rounded size are
-- reported.
pub fs_read_file_lem :
    (fuel : ℕ) (st : Storage) (stale : Stale) (t : DriveTable) (bound letter : ℕ)
    (ds : List (List ℕ)) (file : List ℕ) (buffer : ℕ → ℕ) (info : FileInfo) (e : Entry)
    → IsMounted st t letter
    → IsPart file
    → Leads st bound (root_of st) ds (file ++ (b';' ∷ b'1' ∷ [])) e
    → bound + length ds < fuel
    → e.size < 2 ^ 25 - 2048
    → e.loc < 2 ^ 30
    → (out : ℕ → ℕ) × (i : FileInfo) × (fs_read_file fuel st stale t
          (letter ∷ b':' ∷ b'/' ∷ join ds file)
          buffer
          info
        ≡ some (true, out, i))
      × ((k : ℕ) → k < bytes_to_block e.size → out k ≡ disk_byte st (e.loc * 2048 + k))
      × (i.size ≡ bytes_to_block e.size)
      × (i.lba_loc ≡ e.loc)
unfolding fs_read_file iso9660_read
fs_read_file_lem fuel st stale t bound letter ds file buffer info e mounted part leads long small
      low =
    let d = t.drives mounted.index in
    let path = letter ∷ b':' ∷ b'/' ∷ join ds file in
    let i : FileInfo = record {
      name = file ++ (b';' ∷ b'1' ∷ []);
      size = bytes_to_block e.size;
      lba_loc = e.loc;
    } in
    let found : iso9660_get_file_info fuel st stale path d info ≡ some (true, i) =
      iso9660_get_file_info_lem fuel st stale bound letter ds file d info e mounted.present
        mounted.master part leads long in
    let count = add32 (bytes_to_block e.size) 2047 / 2048 in
    let whole : count * 2048 ≡ bytes_to_block e.size = omega arith in
    let iso : (d.type == 0) ≡ true = ground (arith, mounted.type) in
    (
      read_blocks st d.loc e.loc count buffer,
      i,
      rw (fs_read_file, mounted.listed, iso, iso9660_read, found) refl,
      λ k lt.
          ap (λ (l : ℕ). read_blocks st l e.loc count buffer k) mounted.master
          ∙ read_blocks_lem st e.loc count buffer k mounted.present low (omega arith)
              (omega (arith, whole)),
      refl,
      refl,
    )
