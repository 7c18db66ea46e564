-- ===== src/Ram/Tests.antt =====
-- Tests of the byte routines, and their theorems at a concrete memory.
use acky.Base.{
  ℕ, ◌+◌, ◌<◌, ◌≡◌, refl, arith, ◌==◌, if◌then◌else◌, inl, inr, some, List, [], ◌∷◌, ◌↔◌,
}
use acky.Base.Int.{ℤ, pos, negsuc, ◌-ℤ◌}
use acky.Ram.{Ram, memcpy, memset, strcpy, strcmp, memcmp}
use acky.Ram.Copy.{memcpy_lem, memset_lem}
use acky.Ram.Text.{HoldsText, strcpy-memcpy, strcmp-zero_iff, memcmp-zero_iff}

-- "CD" at 16, "CE" at 32, NUL everywhere else.
abbrev texts : Ram
texts a =
    if a == 16
    then 67
    else if a == 17
    then 68
    else if a == 32
    then 67
    else if a == 33
    then 69
    else 0

memcpy_overlap : memcpy texts 15 16 2 15 ≡ 67
unfolding memcpy
memcpy_overlap = refl

strcmp_differs : strcmp 3 texts 16 32 ≡ some (negsuc 0)
unfolding strcmp ◌-ℤ◌
strcmp_differs = refl

memcpy_lem_example : memcpy texts 15 16 2 16 ≡ 68
memcpy_lem_example = memcpy_lem texts 15 16 2 16 (omega arith) (omega arith) (inl (omega arith))

memset_lem_example : memset texts 16 300 2 17 ≡ 44
memset_lem_example = memset_lem texts 16 300 2 17 (omega arith)

abbrev word_cd : List ℕ
word_cd = 67 ∷ 68 ∷ []

abbrev word_ce : List ℕ
word_ce = 67 ∷ 69 ∷ []

cd : HoldsText texts 16 word_cd
cd = omega arith

ce : HoldsText texts 32 word_ce
ce = omega arith

strcpy-memcpy_example : strcpy 3 texts 40 16 ≡ some (memcpy texts 40 16 3)
strcpy-memcpy_example =
    strcpy-memcpy 3 texts 40 16 word_cd cd (omega arith) (omega arith) (omega arith)
      (inr (omega arith))

strcmp-zero_iff_example :
    (z : ℤ) × (strcmp 3 texts 16 32 ≡ some z) × ((z ≡ pos 0) ↔ (word_cd ≡ word_ce))
strcmp-zero_iff_example =
    strcmp-zero_iff 3 texts 16 32 word_cd word_ce (λ a. ground arith) cd ce (omega arith)
      (omega arith) (omega arith)

memcmp-zero_iff_example :
    (memcmp texts 16 32 1 ≡ pos 0) ↔ ((k : ℕ) → k < 1 → texts (16 + k) ≡ texts (32 + k))
memcmp-zero_iff_example = memcmp-zero_iff texts 16 32 1 (omega arith) (omega arith)
