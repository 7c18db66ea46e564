-- ===== src/Fs/Lookup.antt =====
-- A path is resolved directory by directory.
use acky.Base.{
  ℕ, zero, suc, ◌+◌, ◌*◌, ◌^◌, ◌<◌, ◌≤◌, ◌≡◌, ◌≢◌, ◌⊎◌, refl, arith, if◌then◌else◌, ◌==◌, Option,
  some, true, false, List, [], ◌∷◌, ◌++◌, length, inl, inr, ◌∙◌, ap, sym, Bool-cases,
}
use mathlib.Core.Path.{subst}
use acky.Fs.{
  Storage, Stale, Drive, FileInfo, Search, same_text, read_blocks, processed_path, final_name,
  find_entry, walk, bytes_to_block, iso9660_get_file_info, le32,
}
use acky.Fs.Blocks.{disk_byte, read_blocks_lem}
use acky.Fs.Directory.{
  Entry, until_nul, HoldsDirectory, FitsBlock, lookup, Found, find_entry-Found, HoldsDirectory-same,
  same_text-true, same_text_self,
}
use acky.Fs.Path.{
  IsPart, join, HoldsPart, Spells, get_name_lem, final_name_lem, processed_path-Spells,
}

-- The block of the master disk holds the entries of a directory.
pub record IsDirectory (st : Storage) (block : ℕ) (es : List Entry) : Type 0 where
  pub small : block < 2 ^ 30
  pub holds : HoldsDirectory (λ k. disk_byte st (block * 2048 + k)) 0 es
  pub fits : FitsBlock 0 es

-- The directories named in the list lead from the block to the entry `e` of the last name. No directory
-- is named like the file. `bound` is above the length of each name and not below that of each listing.
abbrev pub Leads : Storage → (bound block : ℕ) → List (List ℕ) → List ℕ → Entry → Type 0
Leads st bound block [] final e =
    (es : List Entry) × IsDirectory st block es
    × (lookup es final ≡ some e)
    × (e.name ≡ final)
    × (length es ≤ bound)
    × (length final < bound)
Leads st bound block (d ∷ ds) final e =
    (es : List Entry) × (x : Entry) × IsDirectory st block es
    × (lookup es d ≡ some x)
    × (length es ≤ bound)
    × (length d < bound)
    × IsPart d
    × (d ≢ final)
    × Leads st bound x.loc ds final e

lookup-name :
    (es : List Entry) (n : List ℕ) (e : Entry) → lookup es n ≡ some e → until_nul e.name ≡ n
lookup-name [] n e h = absurd (ground arith)
lookup-name (x ∷ xs) n e h = elim (Bool-cases (same_text (until_nul x.name) n)) [
  | inl same ↦
      let it : x ≡ e = ground arith in
      ap (λ (y : Entry). until_nul y.name) (sym it) ∙ same_text-true (until_nul x.name) n same
  | inr other ↦ lookup-name xs n e (ground arith)
]

-- What the walk is to find.
pub record Arrives (e : Entry) (final : List ℕ) (o : Option (List ℕ × Search)) : Type 0 where
  pub at : Search
  pub run : o ≡ some (final, at)
  pub loc : at.last_folder_loc ≡ e.loc
  pub size : at.file_size ≡ e.size
  pub file : at.last_dir_is_file ≡ true

-- One directory is read and searched.
read_directory :
    (fuel : ℕ) (st : Storage) (stale : Stale) (buffer : ℕ → ℕ) (es : List Entry) (e : Entry)
    (name final : List ℕ) (s : Search)
    → st.ata.primary_master_present ≡ true
    → IsDirectory st s.last_folder_loc es
    → lookup es name ≡ some e
    → length es ≤ fuel
    → let b = read_blocks st 0 s.last_folder_loc 1 buffer in
      (s' : Search) × (find_entry fuel stale b 0 name final (record s { found_file = false })
        ≡ some s')
      × Found e final (record s { found_file = false }) s'
read_directory fuel st stale buffer es e name final s present dir look long =
    let b = read_blocks st 0 s.last_folder_loc 1 buffer in
    find_entry-Found fuel stale b 0 es e name final (record s { found_file = false })
      (HoldsDirectory-same (λ k. disk_byte st (s.last_folder_loc * 2048 + k)) b 0 es
        (λ k lt.
          read_blocks_lem st s.last_folder_loc 1 buffer k present dir.small (omega arith)
            (omega arith))
        dir.fits dir.holds)
      look long

pub starts :
    (p : ℕ → ℕ) (at : ℕ) (cs : List ℕ)
    → IsPart cs
    → HoldsPart p at cs
    → ((cs ≢ []) ⊎ (p (at + length cs) ≡ b'/'))
    → p at ≢ 0
starts p at [] part h (inl some_chars) = absurd (some_chars refl)
starts p at [] part h (inr slash) = let here : at + 0 ≡ at = omega arith in ground arith
starts p at (c ∷ cs) part h more = ground arith

-- From a block that leads to the file, the walk arrives at it.
walk-Arrives :
    (fuel : ℕ) (st : Storage) (stale : Stale) (p : ℕ → ℕ) (bound : ℕ) (ds : List (List ℕ))
    (final : List ℕ) (buffer : ℕ → ℕ) (at : ℕ) (folder t : List ℕ) (s : Search) (e : Entry)
    → st.ata.primary_master_present ≡ true
    → Spells p at ds final
    → IsPart final
    → final ≡ t ++ (b';' ∷ b'1' ∷ [])
    → final ≢ []
    → Leads st bound s.last_folder_loc ds final e
    → bound + length ds < fuel
    → Arrives e final (walk fuel st stale 0 p final buffer at folder s)
unfolding walk
walk-Arrives zero st stale p bound ds final buffer at folder t s e present sp part ends some_name
      leads long =
    absurd (omega arith)
walk-Arrives (suc fuel) st stale p bound [] final buffer at folder t s e present (h, nul) part ends
      some_name (es, dir, look, named, few, short) long =
    let here : (p at == 0) ≡ false = ground (arith, starts p at final part h (inl some_name)) in
    let name = get_name_lem fuel p at final part h (inr nul) (omega arith) in
    let (s', run, f) =
      read_directory fuel st stale buffer es e final final s present dir look (omega arith) in
    let it = lookup-name es final e look in
    let found : s'.found_file ≡ true = f.found ∙ rw (it, same_text_self final) refl in
    record {
      at = s';
      run = rw (here, name, run, found) refl;
      loc = f.loc;
      size = f.size;
      file = f.file t (named ∙ ends);
    }
walk-Arrives (suc fuel) st stale p bound (d ∷ ds) final buffer at folder t s e present
      (h, slash, rest) part ends some_name (es, x, dir, look, few, short, dpart, differs, leads)
      long =
    let here : (p at == 0) ≡ false = ground (arith, starts p at d dpart h (inr slash)) in
    let name = get_name_lem fuel p at d dpart h (inl slash) (omega arith) in
    let (s', run, f) =
      read_directory fuel st stale buffer es x d final s present dir look (omega arith) in
    let it = lookup-name es d x look in
    let other : same_text (until_nul x.name) final ≡ false =
      elim (Bool-cases (same_text (until_nul x.name) final)) [
        | inl same ↦ absurd (differs (sym it ∙ same_text-true (until_nul x.name) final same))
        | inr no_match ↦ no_match
      ] in
    let b = read_blocks st 0 s.last_folder_loc 1 buffer in
    let lower : Leads st bound s'.last_folder_loc ds final e =
      subst (λ n. Leads st bound n ds final e) (sym f.loc) leads in
    let ih =
      walk-Arrives fuel st stale p bound ds final b (at + length d + 1) d t s' e present rest part
        ends some_name lower (omega arith) in
    let not_yet : s'.found_file ≡ false = f.found ∙ rw other refl in
    record {
      at = ih.at;
      run = rw (here, name, run, not_yet) ih.run;
      loc = ih.loc;
      size = ih.size;
      file = ih.file;
    }

pub IsPart-append : (cs ds : List ℕ) → IsPart cs → IsPart ds → IsPart (cs ++ ds)
IsPart-append [] ds h k = k
IsPart-append (c ∷ cs) ds (nul, slash, h) k = (nul, slash, IsPart-append cs ds h k)

pub not_empty : (cs : List ℕ) → cs ++ (b';' ∷ b'1' ∷ []) ≢ []
not_empty [] e = ground arith
not_empty (c ∷ cs) e = ground arith

-- Where the walk starts: at the root directory of the disk.
abbrev pub root_of : Storage → ℕ
root_of st = le32 (λ k. disk_byte st (16 * 2048 + k)) 158

abbrev pub at_root : Storage → Search
at_root st = record {
  last_folder_loc = root_of st;
  file_size = 0;
  last_dir_is_file = false;
  found_file = false;
}

-- The walk from the root decides what is reported.
pub iso9660_get_file_info-walk :
    (fuel : ℕ) (st : Storage) (stale : Stale) (letter : ℕ) (ds : List (List ℕ)) (file name : List ℕ)
    (d : Drive) (info : FileInfo) (s : Search)
    → st.ata.primary_master_present ≡ true
    → d.loc ≡ 0
    → IsPart file
    → let path = letter ∷ b':' ∷ b'/' ∷ join ds file in
      walk fuel st stale 0
          (processed_path stale path)
          (file ++ (b';' ∷ b'1' ∷ []))
          (read_blocks st 0 16 1 stale.buffer)
          3
          stale.folder_name
          (at_root st)
        ≡ some (name, s)
      → iso9660_get_file_info fuel st stale path d info ≡ (
          if s.last_dir_is_file
          then some (
            true,
            record { name = name; size = bytes_to_block s.file_size; lba_loc = s.last_folder_loc },
          )
          else some (false, info))
unfolding iso9660_get_file_info
iso9660_get_file_info-walk fuel st stale letter ds file name d info s present master part run =
    let path = letter ∷ b':' ∷ b'/' ∷ join ds file in
    let b = read_blocks st 0 16 1 stale.buffer in
    let root : (k : ℕ) → k < 2048 → b k ≡ disk_byte st (16 * 2048 + k) = λ k lt.
      read_blocks_lem st 16 1 stale.buffer k present (omega arith) (omega arith) (omega arith) in
    let same : le32 b 158 ≡ root_of st = omega (arith, root 158, root 159, root 160, root 161) in
    let start = λ (loc : ℕ). record (at_root st) { last_folder_loc = loc } in
    let from_read : walk fuel st stale 0 (processed_path stale path) (file ++ (b';' ∷ b'1' ∷ [])) b
          3 stale.folder_name (start (le32 b 158))
        ≡ some (name, s) =
      subst
        (λ n.
          walk fuel st stale 0 (processed_path stale path) (file ++ (b';' ∷ b'1' ∷ [])) b 3
            stale.folder_name (start n)
          ≡ some (name, s))
        (sym same) run in
    let whole : (walk fuel st stale d.loc (processed_path stale path) (final_name stale path)
          (read_blocks st d.loc 16 1 stale.buffer) 3 stale.folder_name
          (start (le32 (read_blocks st d.loc 16 1 stale.buffer) 158)))
        ≡ some (name, s) =
      simp (master, final_name_lem stale letter ds file part) from_read in
    rw (iso9660_get_file_info, whole) refl

-- On a master disk where the directories of a path lead from the root directory to the file, the path
-- `X:/.../file` is resolved, with enough fuel, to the block of the file's entry, and to its size
-- rounded up to whole blocks, whatever the stack held. No directory on the way is named like the file.
pub iso9660_get_file_info_lem :
    (fuel : ℕ) (st : Storage) (stale : Stale) (bound letter : ℕ) (ds : List (List ℕ))
    (file : List ℕ) (d : Drive) (info : FileInfo) (e : Entry)
    → st.ata.primary_master_present ≡ true
    → d.loc ≡ 0
    → IsPart file
    → Leads st bound (root_of st) ds (file ++ (b';' ∷ b'1' ∷ [])) e
    → bound + length ds < fuel
    → iso9660_get_file_info fuel st stale (letter ∷ b':' ∷ b'/' ∷ join ds file) d info
      ≡ some (
        true,
        record { name = file ++ (b';' ∷ b'1' ∷ []); size = bytes_to_block e.size; lba_loc = e.loc },
      )
iso9660_get_file_info_lem fuel st stale bound letter ds file d info e present master part leads
      long =
    let path = letter ∷ b':' ∷ b'/' ∷ join ds file in
    let final = file ++ (b';' ∷ b'1' ∷ []) in
    let a =
      walk-Arrives fuel st stale (processed_path stale path) bound ds final
        (read_blocks st 0 16 1 stale.buffer) 3 stale.folder_name file (at_root st) e present
        (processed_path-Spells stale letter ds file)
        (IsPart-append file (b';' ∷ b'1' ∷ []) part (ground arith)) refl (not_empty file) leads
        long in
    iso9660_get_file_info-walk fuel st stale letter ds file final d info a.at present master part
      a.run
    ∙ rw (a.file, a.loc, a.size) refl
