-- ===== src/Apps/Table.antt =====
-- The columns of the table that procinfo.c prints.
use acky.Base.{
  ℕ, zero, suc, ◌+◌, ◌-◌, ◌≤◌, ◌≡◌, refl, ◌==◌, Bool-cases, inl, inr, ◌∙◌, ap, arith, List, [], ◌∷◌,
  ◌++◌, text, length,
}
use acky.Decimal.{int_to_str}
use acky.Fs.{text_at}
use acky.Apps.{Call, print, ProcInfo, number, spaces, process_line}

-- The characters that a list of calls prints.
abbrev pub printed : List Call → ℕ
printed [] = 0
printed (print str ∷ cs) = length str + printed cs
printed (c ∷ cs) = printed cs

printed-++ : (a b : List Call) → printed (a ++ b) ≡ printed a + printed b
printed-++ [] b = omega arith
printed-++ (print str ∷ cs) b = omega (arith, printed-++ cs b)
printed-++ (c ∷ cs) b = printed-++ cs b

printed-spaces : (n : ℕ) → printed (spaces n) ≡ n
printed-spaces zero = refl
printed-spaces (suc n) = omega (arith, printed-spaces n)

length-text_at : (b : ℕ → ℕ) (at n : ℕ) → length (text_at b at n) ≤ n
length-text_at b at zero = omega arith
length-text_at b at (suc n) = elim (Bool-cases (b at == 0)) [
  | inl end ↦ rw end (omega arith)
  | inr more ↦ rw more (omega (arith, length-text_at b (at + 1) n))
]

length-number : (n : ℕ) → length (number n) ≤ 20
unfolding number
length-number n = length-text_at (int_to_str n (λ i. 0)) 0 20

-- A text and the spaces behind it fill the column that it fits.
column :
    (str : List ℕ) (width : ℕ)
    → length str ≤ width
    → printed (print str ∷ spaces (width - length str)) ≡ width
column str width fits = omega (arith, printed-spaces (width - length str), fits)

-- The lines of the table are aligned: with a name of at most 32 bytes, the number of the process starts in
-- column 32 and its memory in column 52, however many digits they have.
pub process_line-columns :
    (info : ProcInfo)
    → length info.name ≤ 32
    → (printed (print info.name ∷ spaces (32 - length info.name)) ≡ 32)
      × (printed (process_line info) ≡ 52 + length (number info.mem_usage) + 2)
unfolding process_line
process_line-columns info fits =
    let pid = number info.pid in
    let mem = number info.mem_usage in
    let first = column info.name 32 fits in
    let second = column pid 20 (length-number info.pid) in
    let last : List Call = print mem ∷ print (text "B\n") ∷ [] in
    let names : List Call = print info.name ∷ spaces (32 - length info.name) in
    let pids : List Call = print pid ∷ spaces (20 - length pid) in
    let both : printed (names ++ pids) ≡ 52 =
      printed-++ names pids ∙ omega (arith, first, second) in
    let total : printed (process_line info) ≡ 52 + printed last =
      printed-++ (names ++ pids) last ∙ ap (λ (n : ℕ). n + printed last) both in
    (first, total ∙ omega arith)
