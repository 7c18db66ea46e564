-- ===== src/Keyboard/Chars.antt =====
-- Which characters the tables give.
use acky.Base.{
  ℕ, zero, suc, ◌+◌, ◌≤◌, ◌<◌, ◌≡◌, ◌≢◌, refl, arith, ◌==◌, none, some, Bool, true, false, ◌&&◌,
  not, List, [], ◌∷◌, length, get_elem?,
}
use acky.Keyboard.{scancode_to_char}
use acky.Keyboard.Tables.{table_upper_fr, table_lower_fr, table_lower_uk, table_upper_uk}

-- No `\b` is among the characters.
abbrev pub is_plain : List ℕ → Bool
is_plain [] = true
is_plain (c ∷ cs) = not (c == 8) && is_plain cs

pub is_plain-get_elem? :
    (cs : List ℕ) (i ch : ℕ) → is_plain cs ≡ true → get_elem? cs i ≡ some ch → ch ≢ 8
is_plain-get_elem? [] i ch plain e = absurd (ground arith)
is_plain-get_elem? (c ∷ cs) zero ch plain e = ground arith
is_plain-get_elem? (c ∷ cs) (suc i) ch plain e = is_plain-get_elem? cs i ch (ground arith) e

get_elem?-lt : (cs : List ℕ) (i : ℕ) → i < length cs → (c : ℕ) × (get_elem? cs i ≡ some c)
get_elem?-lt [] i h = absurd (omega arith)
get_elem?-lt (c ∷ cs) zero h = (c, refl)
get_elem?-lt (c ∷ cs) (suc i) h = get_elem?-lt cs i (omega arith)

-- The index of a key up to scan code 58 stays within each of the tables.
look_up_plain :
    (beyond : ℕ → ℕ) (table : List ℕ) (scan_code : ℕ)
    → is_plain table ≡ true
    → 60 ≤ length table
    → scan_code < 59
    → (elim (get_elem? table (scan_code + 1)) as (λ o. ℕ) [
      | none ↦ beyond (scan_code + 1)
      | some c ↦ c
    ])
      ≢ 8
look_up_plain beyond table scan_code plain long h =
    let (c, e) = get_elem?-lt table (scan_code + 1) (omega arith) in
    ground (arith, is_plain-get_elem? table (scan_code + 1) c plain e)

pub scancode_to_char_plain :
    (beyond : ℕ → ℕ) (layout : Bool) (scan_code : ℕ) (upper : Bool)
    → scan_code < 59
    → scancode_to_char beyond layout scan_code upper ≢ 8
unfolding scancode_to_char
scancode_to_char_plain beyond true scan_code true h =
    look_up_plain beyond table_upper_uk scan_code refl (omega arith) h
scancode_to_char_plain beyond true scan_code false h =
    look_up_plain beyond table_lower_uk scan_code refl (omega arith) h
scancode_to_char_plain beyond false scan_code true h =
    look_up_plain beyond table_upper_fr scan_code refl (omega arith) h
scancode_to_char_plain beyond false scan_code false h =
    look_up_plain beyond table_lower_fr scan_code refl (omega arith) h
