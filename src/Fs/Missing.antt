-- ===== src/Fs/Missing.antt =====
-- A file that is not there.
use acky.Base.{
  ℕ, zero, suc, ◌+◌, ◌*◌, ◌<◌, ◌≤◌, ◌≡◌, ◌⊎◌, refl, arith, ◌==◌, none, some, true, false, List, [],
  ◌∷◌, ◌++◌, length, length-append, get_elem?, inl, inr, ◌∙◌, ap, sym,
}
use acky.Fs.{
  Storage, Stale, Drive, FileInfo, Search, same_text, text_at, look_at, read_blocks, processed_path,
  find_entry, walk, bytes_to_block, iso9660_get_file_info,
}
use acky.Fs.Blocks.{disk_byte, read_blocks_lem}
use acky.Fs.Directory.{
  Entry, until_nul, HoldsDirectory, lookup, text_at-HoldsName, name_end_file, HoldsDirectory-same,
}
use acky.Fs.Path.{IsPart, get_name_lem, processed_path-Spells, get_elem?-append}
use acky.Fs.Lookup.{
  IsDirectory, root_of, at_root, iso9660_get_file_info-walk, IsPart-append, not_empty, starts,
}

-- Some entry has a name that ends in `;1`.
abbrev pub HasFile : List Entry → Type 0
HasFile [] = ⊥
HasFile (e ∷ es) = ((t : List ℕ) × (e.name ≡ t ++ (b';' ∷ b'1' ∷ []))) ⊎ HasFile es

-- What the search gives for a name that is not there.
pub record Missing (es : List Entry) (s s' : Search) : Type 0 where
  pub loc : s'.last_folder_loc ≡ s.last_folder_loc
  pub found : s'.found_file ≡ s.found_file
  pub kept : s.last_dir_is_file ≡ true → s'.last_dir_is_file ≡ true
  pub file : HasFile es → s'.last_dir_is_file ≡ true

find_entry-Missing :
    (fuel : ℕ) (stale : Stale) (b : ℕ → ℕ) (p : ℕ) (x : Entry) (xs : List Entry)
    (folder final : List ℕ) (s : Search)
    → HoldsDirectory b p (x ∷ xs)
    → lookup (x ∷ xs) folder ≡ none
    → length (x ∷ xs) ≤ fuel
    → (s' : Search) × (find_entry fuel stale b p folder final s ≡ some s') × Missing (x ∷ xs) s s'
unfolding find_entry
find_entry-Missing zero stale b p x xs folder final s h look long = absurd (omega arith)
find_entry-Missing (suc fuel) stale b p x [] folder final s (here, end) look long =
    let name : text_at b (p + 33) (b (p + 32)) ≡ until_nul x.name =
      rw here.name_length (text_at-HoldsName b (p + 33) x.name here.name) in
    let other : same_text (until_nul x.name) folder ≡ false = ground arith in
    let step : p + b p ≡ p + x.length = omega (arith, here.record_length) in
    let last : (b (p + x.length) == 0) ≡ true = ground arith in
    (
      look_at stale b p s,
      rw (name, other, step, last) refl,
      record {
        loc = refl;
        found = refl;
        kept = λ yes_file. ground arith;
        file = λ some_file. elim some_file [
          | inl (t, ends) ↦ let (two, one) = name_end_file stale b p x t here ends in ground arith
          | inr none_left ↦ absurd none_left
        ];
      },
    )
find_entry-Missing (suc fuel) stale b p x (y ∷ ys) folder final s (here, rest) look long =
    let name : text_at b (p + 33) (b (p + 32)) ≡ until_nul x.name =
      rw here.name_length (text_at-HoldsName b (p + 33) x.name here.name) in
    let other : same_text (until_nul x.name) folder ≡ false = ground arith in
    let step : p + b p ≡ p + x.length = omega (arith, here.record_length) in
    let positive = rest.0.positive in
    let more : (b (p + x.length) == 0) ≡ false = ground (arith, rest.0.record_length) in
    let looked = look_at stale b p s in
    let (s', run, m) =
      find_entry-Missing fuel stale b (p + x.length) y ys folder final looked rest (ground arith)
        (omega arith) in
    (
      s',
      rw (name, other, step, more) run,
      record {
        loc = m.loc;
        found = m.found;
        kept = λ yes_file. m.kept (ground arith);
        file = λ some_file. elim some_file [
          | inl (t, ends) ↦
              let (two, one) = name_end_file stale b p x t here ends in m.kept (ground arith)
          | inr below ↦ m.file below
        ];
      },
    )

behind_path_lem :
    (stale : Stale) (path : List ℕ)
    → processed_path stale path (length path + 3) ≡ stale.behind_path (length path + 3)
behind_path_lem stale path =
    let out : get_elem? (path ++ (b';' ∷ b'1' ∷ 0 ∷ [])) (length path + 3) ≡ none =
      get_elem?-append path (b';' ∷ b'1' ∷ 0 ∷ []) 3 in
    ground (arith, out)

-- A path `X:/file` to a file that the root directory does not list is reported as found, in the block
-- of the root directory itself, when that directory lists some other file and the byte behind the
-- array of the path is a NUL.
pub iso9660_get_file_info_missing :
    (fuel : ℕ) (st : Storage) (stale : Stale) (letter : ℕ) (file : List ℕ) (d : Drive)
    (info : FileInfo) (x : Entry) (xs : List Entry)
    → st.ata.primary_master_present ≡ true
    → d.loc ≡ 0
    → IsPart file
    → IsDirectory st (root_of st) (x ∷ xs)
    → lookup (x ∷ xs) (file ++ (b';' ∷ b'1' ∷ [])) ≡ none
    → HasFile (x ∷ xs)
    → stale.behind_path (length file + 6) ≡ 0
    → length (x ∷ xs) + length file + 4 < fuel
    → (wrong : FileInfo) × (iso9660_get_file_info fuel st stale (letter ∷ b':' ∷ b'/' ∷ file) d info
        ≡ some (true, wrong))
      × (wrong.lba_loc ≡ root_of st)
unfolding walk
iso9660_get_file_info_missing zero st stale letter file d info x xs present master part dir look
      others nul long =
    absurd (omega arith)
iso9660_get_file_info_missing (suc zero) st stale letter file d info x xs present master part dir
      look others nul long =
    absurd (omega arith)
iso9660_get_file_info_missing (suc (suc fuel)) st stale letter file d info x xs present master part
      dir look others nul long =
    let path = letter ∷ b':' ∷ b'/' ∷ file in
    let final = file ++ (b';' ∷ b'1' ∷ []) in
    let p = processed_path stale path in
    let r = root_of st in
    let b = read_blocks st 0 16 1 stale.buffer in
    let more : length final ≡ length file + 2 = length-append file (b';' ∷ b'1' ∷ []) in
    let (h, end) = processed_path-Spells stale letter [] file in
    let here : (p 3 == 0) ≡ false = ground (
      arith,
      starts p 3 final (IsPart-append file (b';' ∷ b'1' ∷ []) part (ground arith)) h
          (inl (not_empty file)),
    ) in
    let name =
      get_name_lem (suc fuel) p 3 final (IsPart-append file (b';' ∷ b'1' ∷ []) part (ground arith))
        h (inr end) (omega arith) in
    let listing = read_blocks st 0 r 1 b in
    let held : HoldsDirectory listing 0 (x ∷ xs) =
      HoldsDirectory-same (λ k. disk_byte st (r * 2048 + k)) listing 0 (x ∷ xs)
        (λ k lt. read_blocks_lem st r 1 b k present dir.small (omega arith) (omega arith)) dir.fits
        dir.holds in
    let (s', run, m) =
      find_entry-Missing (suc fuel) stale listing 0 x xs final final (at_root st) held look
        (omega arith) in
    let past : (p (3 + length final + 1) == 0) ≡ true =
      let place : 3 + length final + 1 ≡ length path + 3 = omega (arith, more) in
      let index : length file + 6 ≡ length path + 3 = omega arith in
      let nul' : stale.behind_path (length path + 3) ≡ 0 = ap stale.behind_path (sym index) ∙ nul in
      ground (arith, ap p place, behind_path_lem stale path) in
    let not_found : s'.found_file ≡ false = m.found in
    let ends : walk (suc (suc fuel)) st stale 0 p final b 3 stale.folder_name (at_root st)
        ≡ some (final, s') =
      rw (here, name, run, not_found, past) refl in
    let flag = m.file others in
    (
      record { name = final; size = bytes_to_block s'.file_size; lba_loc = s'.last_folder_loc },
      iso9660_get_file_info-walk (suc (suc fuel)) st stale letter [] file final d info s' present
            master part ends
          ∙ rw flag refl,
      m.loc,
    )
