-- ===== src/Fs/Directory.antt =====
-- A directory as a list of entries, and the search for a name in it.
use acky.Base.{
  ℕ, zero, suc, ◌+◌, ◌-◌, ◌<◌, ◌≤◌, ◌≡◌, ◌≢◌, refl, arith, if◌then◌else◌, ◌==◌, Option, none, some,
  true, false, ◌||◌, List, [], ◌∷◌, length, Bool-cases, inl, inr, ◌∙◌, ap, ◌++◌, length-append,
}
use mathlib.Core.Path.{subst}
use acky.Fs.{Stale, Search, le32, same_text, text_at, name_end, look_at, find_entry}

-- `ISO9660DirEntry` as far as it is read: the bytes of the name, a NUL or a 1 for the directory itself
-- and its parent, and the length of the record.
pub record Entry : Type 0 where
  pub name : List ℕ
  pub loc : ℕ
  pub size : ℕ
  pub length : ℕ

-- The bytes of a name up to a NUL.
abbrev pub until_nul : List ℕ → List ℕ
until_nul [] = []
until_nul (c ∷ cs) = if c == 0 then [] else c ∷ until_nul cs

-- The bytes of a name stand from `p` on.
abbrev pub HoldsName : (ℕ → ℕ) → ℕ → List ℕ → Type 0
HoldsName b p [] = Unit
HoldsName b p (c ∷ cs) = (b p ≡ c) × HoldsName b (p + 1) cs

-- The record of one entry stands at `p`.
pub record HoldsEntry (b : ℕ → ℕ) (p : ℕ) (e : Entry) : Type 0 where
  pub record_length : b p ≡ e.length
  pub positive : 0 < e.length
  pub name_length : b (p + 32) ≡ length e.name
  pub name : HoldsName b (p + 33) e.name
  pub loc : le32 b (p + 2) ≡ e.loc
  pub size : le32 b (p + 10) ≡ e.size

-- The entries stand from `p` on, with a zero byte behind the last.
abbrev pub HoldsDirectory : (ℕ → ℕ) → ℕ → List Entry → Type 0
HoldsDirectory b p [] = b p ≡ 0
HoldsDirectory b p (e ∷ es) = HoldsEntry b p e × HoldsDirectory b (p + e.length) es

-- The first entry of that name.
abbrev pub lookup : List Entry → List ℕ → Option Entry
lookup [] name = none
lookup (e ∷ es) name = if same_text (until_nul e.name) name then some e else lookup es name

pub text_at-HoldsName :
    (b : ℕ → ℕ) (p : ℕ) (cs : List ℕ) → HoldsName b p cs → text_at b p (length cs) ≡ until_nul cs
text_at-HoldsName b p [] h = refl
text_at-HoldsName b p (c ∷ cs) h = ground (arith, text_at-HoldsName b (p + 1) cs h.1)

pub same_text-true : (a b : List ℕ) → same_text a b ≡ true → a ≡ b
same_text-true [] [] h = refl
same_text-true [] (d ∷ ds) h = absurd (ground arith)
same_text-true (c ∷ cs) [] h = absurd (ground arith)
same_text-true (c ∷ cs) (d ∷ ds) h =
    let head : c ≡ d = ground arith in
    let tail : cs ≡ ds = same_text-true cs ds (ground arith) in rw (head, tail) refl

pub same_text_self : (a : List ℕ) → same_text a a ≡ true
same_text_self [] = refl
same_text_self (c ∷ cs) = ground (arith, same_text_self cs)

HoldsName-append :
    (b : ℕ → ℕ) (p : ℕ) (cs ds : List ℕ) → HoldsName b p (cs ++ ds) → HoldsName b (p + length cs) ds
HoldsName-append b p [] ds h = let here : p + 0 ≡ p = omega arith in rw here h
HoldsName-append b p (c ∷ cs) ds h =
    let next : p + length (c ∷ cs) ≡ p + 1 + length cs = omega arith in
    rw next (HoldsName-append b (p + 1) cs ds h.1)

-- An entry whose name ends in `;1` counts as a file.
pub name_end_file :
    (stale : Stale) (b : ℕ → ℕ) (p : ℕ) (e : Entry) (t : List ℕ)
    → HoldsEntry b p e
    → e.name ≡ t ++ (b';' ∷ b'1' ∷ [])
    → (name_end stale b p 2 ≡ b';') × (name_end stale b p 1 ≡ b'1')
name_end_file stale b p e t h file =
    let n : length e.name ≡ length t + 2 = ap length file ∙ length-append t (b';' ∷ b'1' ∷ []) in
    let tail : HoldsName b (p + 33 + length t) (b';' ∷ b'1' ∷ []) =
      HoldsName-append b (p + 33) t (b';' ∷ b'1' ∷ [])
        (subst (HoldsName b (p + 33)) (file) h.name) in
    let two : p + 33 + b (p + 32) - 2 ≡ p + 33 + length t = omega (arith, h.name_length, n) in
    let one : p + 33 + b (p + 32) - 1 ≡ p + 33 + length t + 1 = omega (arith, h.name_length, n) in
    (ground (arith, h.name_length), ground (arith, h.name_length))

-- What the search gives for a name that is there: the block and the size of its first entry.
pub record Found (e : Entry) (final : List ℕ) (s s' : Search) : Type 0 where
  pub loc : s'.last_folder_loc ≡ e.loc
  pub size : s'.file_size ≡ e.size
  pub found : s'.found_file ≡ (same_text (until_nul e.name) final || s.found_file)
  pub file : (t : List ℕ) → e.name ≡ t ++ (b';' ∷ b'1' ∷ []) → s'.last_dir_is_file ≡ true

not_at_end :
    (b : ℕ → ℕ) (p : ℕ) (es : List Entry) (e : Entry) (folder : List ℕ)
    → HoldsDirectory b p es
    → lookup es folder ≡ some e
    → b p ≢ 0
not_at_end b p [] e folder h look = absurd (ground arith)
not_at_end b p (x ∷ xs) e folder h look =
    let positive = h.0.positive in omega (arith, h.0.record_length)

pub find_entry-Found :
    (fuel : ℕ) (stale : Stale) (b : ℕ → ℕ) (p : ℕ) (es : List Entry) (e : Entry)
    (folder final : List ℕ) (s : Search)
    → HoldsDirectory b p es
    → lookup es folder ≡ some e
    → length es ≤ fuel
    → (s' : Search) × (find_entry fuel stale b p folder final s ≡ some s') × Found e final s s'
unfolding find_entry
find_entry-Found fuel stale b p [] e folder final s h look long = absurd (ground arith)
find_entry-Found zero stale b p (x ∷ xs) e folder final s h look long = absurd (omega arith)
find_entry-Found (suc fuel) stale b p (x ∷ xs) e folder final s (here, rest) look long =
    let name : text_at b (p + 33) (b (p + 32)) ≡ until_nul x.name =
      rw here.name_length (text_at-HoldsName b (p + 33) x.name here.name) in
    let looked = look_at stale b p s in
    elim (Bool-cases (same_text (until_nul x.name) folder)) [
      | inl same ↦
          let it : x ≡ e = ground arith in
          (
            record looked {
              last_folder_loc = le32 b (p + 2);
              found_file = same_text (until_nul x.name) final || s.found_file;
            },
            rw (name, same) refl,
            record {
              loc = here.loc ∙ ap (λ (y : Entry). y.loc) it;
              size = here.size ∙ ap (λ (y : Entry). y.size) it;
              found = ap (λ (y : Entry). same_text (until_nul y.name) final || s.found_file) it;
              file = λ t ends.
                  let (two, one) =
                    name_end_file stale b p x t here (ap (λ (y : Entry). y.name) it ∙ ends) in
                  ground arith;
            },
          )
      | inr other ↦
          let step : p + b p ≡ p + x.length = omega (arith, here.record_length) in
          let more : (b (p + x.length) == 0) ≡ false =
            ground (arith, not_at_end b (p + x.length) xs e folder rest (ground arith)) in
          let (s', run, f) =
            find_entry-Found fuel stale b (p + x.length) xs e folder final looked rest
              (ground arith) (omega arith) in
          (
            s',
            rw (name, other, step, more) run,
            record { loc = f.loc; size = f.size; found = f.found; file = f.file },
          )
    ]

-- The entries, with all that is read of them, lie in one block.
abbrev pub FitsBlock : ℕ → List Entry → Type 0
FitsBlock p [] = p < 2048
FitsBlock p (e ∷ es) = (p + 33 + length e.name ≤ 2048) × FitsBlock (p + e.length) es

HoldsName-same :
    (b b' : ℕ → ℕ) (p : ℕ) (cs : List ℕ)
    → ((k : ℕ) → k < 2048 → b' k ≡ b k)
    → p + length cs ≤ 2048
    → HoldsName b p cs
    → HoldsName b' p cs
HoldsName-same b b' p [] same fits h = h
HoldsName-same b b' p (c ∷ cs) same fits (e, h) =
    (same p (omega arith) ∙ e, HoldsName-same b b' (p + 1) cs same (omega arith) h)

-- A block that was read holds the directory that the disk holds there.
pub HoldsDirectory-same :
    (b b' : ℕ → ℕ) (p : ℕ) (es : List Entry)
    → ((k : ℕ) → k < 2048 → b' k ≡ b k)
    → FitsBlock p es
    → HoldsDirectory b p es
    → HoldsDirectory b' p es
HoldsDirectory-same b b' p [] same fits h = same p fits ∙ h
HoldsDirectory-same b b' p (e ∷ es) same (fits, more) (here, rest) = (
  record {
    record_length = same p (omega arith) ∙ here.record_length;
    positive = here.positive;
    name_length = same (p + 32) (omega arith) ∙ here.name_length;
    name = HoldsName-same b b' (p + 33) e.name same fits here.name;
    loc =
        omega (arith, same (p + 2), same (p + 2 + 1), same (p + 2 + 2), same (p + 2 + 3), here.loc);
    size =
        omega (
          arith,
          same (p + 10),
          same (p + 10 + 1),
          same (p + 10 + 2),
          same (p + 10 + 3),
          here.size,
        );
  },
  HoldsDirectory-same b b' (p + e.length) es same more rest,
)
