-- ===== src/Fs/Path.antt =====
-- The parts of a path, and how the code takes them apart.
use acky.Base.{
  ℕ, zero, suc, ◌+◌, ◌<◌, ◌≡◌, ◌≢◌, ◌⊎◌, refl, arith, none, some, List, [], ◌∷◌, ◌++◌, length,
  length-append, get_elem?, ◌∙◌, ap, sym,
}
use mathlib.Core.List.{append_assoc}
use mathlib.Core.Path.{subst}
use acky.Fs.{Stale, processed_path, last_name, final_name, get_name}

-- A part of a path: some characters, no `/` and no NUL among them.
abbrev pub IsPart : List ℕ → Type 0
IsPart [] = Unit
IsPart (c ∷ cs) = (c ≢ 0) × (c ≢ b'/') × IsPart cs

-- The directories and the file of a path behind `X:/`, with a `/` between them.
abbrev pub join : List (List ℕ) → List ℕ → List ℕ
join [] file = file
join (d ∷ ds) file = d ++ (b'/' ∷ join ds file)

-- The part stands from `j` on.
abbrev pub HoldsPart : (ℕ → ℕ) → ℕ → List ℕ → Type 0
HoldsPart p j [] = Unit
HoldsPart p j (c ∷ cs) = (p j ≡ c) × HoldsPart p (j + 1) cs

-- The parts stand from `j` on, a `/` behind each but the last, and a NUL behind that.
abbrev pub Spells : (ℕ → ℕ) → ℕ → List (List ℕ) → List ℕ → Type 0
Spells p j [] file = HoldsPart p j file × (p (j + length file) ≡ 0)
Spells p j (d ∷ ds) file =
    HoldsPart p j d × (p (j + length d) ≡ b'/') × Spells p (j + length d + 1) ds file

-- The loop over the characters of a part finds it, with more rounds than it has characters.
pub get_name_lem :
    (fuel : ℕ) (p : ℕ → ℕ) (j : ℕ) (cs : List ℕ)
    → IsPart cs
    → HoldsPart p j cs
    → ((p (j + length cs) ≡ b'/') ⊎ (p (j + length cs) ≡ 0))
    → length cs < fuel
    → get_name fuel p j ≡ some (cs, j + length cs)
unfolding get_name
get_name_lem zero p j cs part h end long = absurd (omega arith)
get_name_lem (suc fuel) p j [] part h end long = let here : j + 0 ≡ j = omega arith in ground arith
get_name_lem (suc fuel) p j (c ∷ cs) (nul, slash, part) (e, h) end long =
    let next : j + suc (length cs) ≡ j + 1 + length cs = omega arith in
    let ih = get_name_lem fuel p (j + 1) cs part h in ground (arith, ih)

-- A list of bytes, read by its index.
abbrev byte : (ℕ → ℕ) → List ℕ → ℕ → ℕ
byte behind cs i = elim (get_elem? cs i) [ none ↦ behind i | some c ↦ c ]

pub get_elem?-append :
    (pre xs : List ℕ) (i : ℕ) → get_elem? (pre ++ xs) (length pre + i) ≡ get_elem? xs i
get_elem?-append [] xs i = ap (get_elem? xs) (omega arith)
get_elem?-append (c ∷ pre) xs i =
    let at : suc (length pre) + i ≡ suc (length pre + i) = omega arith in
    rw at (get_elem?-append pre xs i)

byte_after :
    (behind : ℕ → ℕ) (pre cs rest : List ℕ) (r : ℕ)
    → byte behind (pre ++ (cs ++ (r ∷ rest))) (length pre + length cs) ≡ r
byte_after behind pre cs rest r =
    let zero_more : length cs + 0 ≡ length cs = omega arith in
    let inner : get_elem? (cs ++ (r ∷ rest)) (length cs) ≡ some r =
      ap (get_elem? (cs ++ (r ∷ rest))) (sym zero_more) ∙ get_elem?-append cs (r ∷ rest) 0 in
    ground (arith, get_elem?-append pre (cs ++ (r ∷ rest)) (length cs), inner)

HoldsPart-byte :
    (behind : ℕ → ℕ) (pre cs rest : List ℕ)
    → HoldsPart (byte behind (pre ++ (cs ++ rest))) (length pre) cs
HoldsPart-byte behind pre [] rest = tt
HoldsPart-byte behind pre (c ∷ cs) rest =
    let moved : (pre ++ (c ∷ [])) ++ (cs ++ rest) ≡ pre ++ (c ∷ (cs ++ rest)) =
      append_assoc pre (c ∷ []) (cs ++ rest) in
    let longer : length (pre ++ (c ∷ [])) ≡ length pre + 1 = length-append pre (c ∷ []) in
    let here : length pre + 0 ≡ length pre = omega arith in
    let first : get_elem? (pre ++ (c ∷ (cs ++ rest))) (length pre) ≡ some c =
      ap (get_elem? (pre ++ (c ∷ (cs ++ rest)))) (sym here)
      ∙ get_elem?-append pre (c ∷ (cs ++ rest)) 0 in
    (
      rw (byte, first) refl,
      subst (λ l. HoldsPart (byte behind l) (length pre + 1) cs) (moved)
          (subst (λ n. HoldsPart (byte behind ((pre ++ (c ∷ [])) ++ (cs ++ rest))) n cs) (longer)
            (HoldsPart-byte behind (pre ++ (c ∷ [])) cs rest)),
    )

Spells-byte :
    (behind : ℕ → ℕ) (pre : List ℕ) (ds : List (List ℕ)) (file : List ℕ)
    → Spells
        (byte behind (pre ++ (join ds file ++ (b';' ∷ b'1' ∷ 0 ∷ []))))
        (length pre)
        ds
        (file ++ (b';' ∷ b'1' ∷ []))
Spells-byte behind pre [] file =
    let whole : (file ++ (b';' ∷ b'1' ∷ [])) ++ (0 ∷ []) ≡ file ++ (b';' ∷ b'1' ∷ 0 ∷ []) =
      append_assoc file (b';' ∷ b'1' ∷ []) (0 ∷ []) in
    subst (λ l. Spells (byte behind (pre ++ l)) (length pre) [] (file ++ (b';' ∷ b'1' ∷ [])))
      (whole)
      (
        HoldsPart-byte behind pre (file ++ (b';' ∷ b'1' ∷ [])) (0 ∷ []),
        byte_after behind pre (file ++ (b';' ∷ b'1' ∷ [])) [] 0,
      )
Spells-byte behind pre (d ∷ ds) file =
    let tail = join ds file ++ (b';' ∷ b'1' ∷ 0 ∷ []) in
    let all = pre ++ (d ++ (b'/' ∷ tail)) in
    let whole : d ++ (b'/' ∷ tail) ≡ (d ++ (b'/' ∷ join ds file)) ++ (b';' ∷ b'1' ∷ 0 ∷ []) =
      sym (append_assoc d (b'/' ∷ join ds file) (b';' ∷ b'1' ∷ 0 ∷ [])) in
    let longer : length (pre ++ (d ++ (b'/' ∷ []))) ≡ length pre + length d + 1 =
      omega (arith, length-append pre (d ++ (b'/' ∷ [])), length-append d (b'/' ∷ [])) in
    let moved : (pre ++ (d ++ (b'/' ∷ []))) ++ tail ≡ all =
      append_assoc pre (d ++ (b'/' ∷ [])) tail
      ∙ ap (λ (l : List ℕ). pre ++ l) (append_assoc d (b'/' ∷ []) tail) in
    let rest : Spells (byte behind all) (length pre + length d + 1) ds
        (file ++ (b';' ∷ b'1' ∷ [])) =
      subst
        (λ l. Spells (byte behind l) (length pre + length d + 1) ds (file ++ (b';' ∷ b'1' ∷ [])))
        (moved)
        (subst
          (λ n.
            Spells (byte behind ((pre ++ (d ++ (b'/' ∷ []))) ++ tail)) n ds
              (file ++ (b';' ∷ b'1' ∷ [])))
          (longer) (Spells-byte behind (pre ++ (d ++ (b'/' ∷ []))) ds file)) in
    subst (λ l. Spells (byte behind (pre ++ l)) (length pre) (d ∷ ds) (file ++ (b';' ∷ b'1' ∷ [])))
      (whole) (HoldsPart-byte behind pre d (b'/' ∷ tail), byte_after behind pre d tail b'/', rest)

last_name-IsPart : (c : ℕ) (f : List ℕ) → IsPart f → last_name (c ∷ f) ≡ none
last_name-IsPart c [] h = refl
last_name-IsPart c (d ∷ f) h = ground (arith, last_name-IsPart d f h.2)

last_name_after :
    (c : ℕ) (d rest file : List ℕ)
    → ((x : ℕ) → last_name (x ∷ rest) ≡ some file)
    → last_name (c ∷ (d ++ rest)) ≡ some file
last_name_after c [] rest file h = h c
last_name_after c (x ∷ d) rest file h = ground (arith, last_name_after x d rest file h)

last_name-join :
    (c : ℕ) (ds : List (List ℕ)) (file : List ℕ)
    → IsPart file
    → last_name (c ∷ b'/' ∷ join ds file) ≡ some file
last_name-join c [] file h = ground (arith, last_name-IsPart b'/' file h)
last_name-join c (d ∷ ds) file h =
    let behind : last_name (b'/' ∷ (d ++ (b'/' ∷ join ds file))) ≡ some file =
      last_name_after b'/' d (b'/' ∷ join ds file) file (λ x. last_name-join x ds file h) in
    ground (arith, behind)

-- The name that the code looks for at the end of a path `X:/...`.
pub final_name_lem :
    (stale : Stale) (drive : ℕ) (ds : List (List ℕ)) (file : List ℕ)
    → IsPart file
    → final_name stale (drive ∷ b':' ∷ b'/' ∷ join ds file) ≡ file ++ (b';' ∷ b'1' ∷ [])
unfolding final_name
final_name_lem stale drive ds file h =
    let found : last_name (drive ∷ b':' ∷ b'/' ∷ join ds file) ≡ some file =
      ground (arith, last_name-join b':' ds file h) in
    ground (arith, found)

-- The processed path spells the parts from its fourth byte on, with `;1` behind the file.
pub processed_path-Spells :
    (stale : Stale) (drive : ℕ) (ds : List (List ℕ)) (file : List ℕ)
    → Spells
        (processed_path stale (drive ∷ b':' ∷ b'/' ∷ join ds file))
        3
        ds
        (file ++ (b';' ∷ b'1' ∷ []))
processed_path-Spells stale drive ds file =
    Spells-byte stale.behind_path (drive ∷ b':' ∷ b'/' ∷ []) ds file
