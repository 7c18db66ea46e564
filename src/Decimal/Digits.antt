-- ===== src/Decimal/Digits.antt =====
-- What the bytes that `intToStr` writes stand for.
use acky.Base.{
  ℕ, zero, suc, ◌+◌, ◌-◌, ◌*◌, ◌/◌, ◌%◌, ◌≤◌, ◌<◌, ◌≡◌, ◌≢◌, refl, u32, arith, if◌then◌else◌, ◌==◌,
  update, leb, ltb, ◌∙◌, ap, sym, Bool-cases, inl, inr, ◌&&◌,
}
use acky.Decimal.{put_digits, reverse_cells, int_to_str}

-- The number without its last `k` digits.
abbrev pub shorten : ℕ → ℕ → ℕ
shorten num zero = num
shorten num (suc k) = shorten num k / 10

shorten-div : (num k : ℕ) → shorten (num / 10) k ≡ shorten num k / 10
shorten-div num zero = refl
shorten-div num (suc k) = ap (λ (x : ℕ). x / 10) (shorten-div num k)

-- How many digits the loop puts down.
pub count_digits : ℕ → ℕ → ℕ
count_digits zero num = 0
count_digits (suc fuel) num =
    let rest = count_digits fuel (num / 10) in if num == 0 then 0 else suc rest

-- With rounds for all digits nothing is left of the number, and before the last digit something is.
count_digits_enough :
    (fuel num : ℕ) → shorten num fuel ≡ 0 → shorten num (count_digits fuel num) ≡ 0
unfolding count_digits
count_digits_enough zero num h = h
count_digits_enough (suc fuel) num h = ground (
  arith,
  shorten-div num fuel,
  count_digits_enough fuel (num / 10),
  shorten-div num (count_digits fuel (num / 10)),
)

count_digits-le : (fuel num : ℕ) → count_digits fuel num ≤ fuel
unfolding count_digits
count_digits-le zero num = omega arith
count_digits-le (suc fuel) num = ground (arith, count_digits-le fuel (num / 10))

put_digits_count :
    (fuel num i : ℕ) (str : ℕ → ℕ) → (put_digits fuel num i str).1 ≡ i + count_digits fuel num
unfolding count_digits put_digits
put_digits_count zero num i str = omega arith
put_digits_count (suc fuel) num i str =
    ground (arith, put_digits_count fuel (num / 10) (i + 1) (update str i (num % 10 + b'0')))

put_digits_before :
    (fuel num i : ℕ) (str : ℕ → ℕ) (j : ℕ) → j < i → (put_digits fuel num i str).0 j ≡ str j
unfolding put_digits
put_digits_before zero num i str j h = refl
put_digits_before (suc fuel) num i str j h =
    ground (arith, put_digits_before fuel (num / 10) (i + 1) (update str i (num % 10 + b'0')) j)

put_digits_digit :
    (fuel num i : ℕ) (str : ℕ → ℕ) (k j : ℕ)
    → k < count_digits fuel num
    → i + k ≡ j
    → (put_digits fuel num i str).0 j ≡ shorten num k % 10 + b'0'
unfolding count_digits put_digits
put_digits_digit zero num i str k j h at = absurd (omega arith)
put_digits_digit (suc fuel) num i str zero j h at =
    ground (arith, put_digits_before fuel (num / 10) (i + 1) (update str i (num % 10 + b'0')) j)
put_digits_digit (suc fuel) num i str (suc k) j h at = ground (
  arith,
  shorten-div num k,
  put_digits_digit fuel (num / 10) (i + 1) (update str i (num % 10 + b'0')) k j,
)

reverse_cells_lem :
    (fuel start end : ℕ) (str : ℕ → ℕ) (j : ℕ)
    → end < start + fuel
    → reverse_cells fuel start end str j
      ≡ (if leb start j && leb j end then str (start + end - j) else str j)
unfolding reverse_cells
reverse_cells_lem zero start end str j h = ground arith
reverse_cells_lem (suc fuel) start end str j h =
    let swapped = update (update str start (str end)) end (str start) in
    elim (Bool-cases (ltb start end)) [
      | inl more ↦
          let e : start + 1 + (end - 1) - j ≡ start + end - j = ground arith in
          let first : start + end - start ≡ end = omega arith in
          let last : start + end - end ≡ start = omega arith in
          ground (arith, reverse_cells_lem fuel (start + 1) (end - 1) swapped j)
      | inr stop ↦ elim (Bool-cases (leb start j && leb j end)) [
        | inl middle ↦ let e : start + end - j ≡ j = ground arith in ground arith
        | inr out ↦ ground arith
      ]
    ]

-- The number that the first `n` bytes stand for.
abbrev pub value : (ℕ → ℕ) → ℕ → ℕ
value str zero = 0
value str (suc n) = value str n * 10 + (str n - b'0')

-- The length of the text.
pub text_length : ℕ → ℕ
text_length zero = 1
text_length (suc n) = count_digits 10 (suc n)

count_digits_pos : (fuel num : ℕ) → num ≢ 0 → 0 < count_digits (suc fuel) num
unfolding count_digits
count_digits_pos fuel num some_digit = ground arith

-- Where each digit stands in the end.
int_to_str_digit :
    (num : ℕ) (str : ℕ → ℕ) (j : ℕ)
    → num ≢ 0
    → j < count_digits 10 num
    → int_to_str num str j ≡ shorten num (count_digits 10 num - 1 - j) % 10 + b'0'
unfolding int_to_str
int_to_str_digit num str j some_digit h =
    let n = count_digits 10 num in
    let count : (put_digits 10 num 0 str).1 ≡ n = omega (arith, put_digits_count 10 num 0 str) in
    let ended = update (put_digits 10 num 0 str).0 n 0 in
    let back : 0 + (n - 1) - j ≡ n - 1 - j = omega arith in
    let there = put_digits_digit 10 num 0 str (n - 1 - j) (n - 1 - j) (omega arith) (omega arith) in
    ground (arith, reverse_cells_lem n 0 (n - 1) ended j)

int_to_str_end : (num : ℕ) (str : ℕ → ℕ) → num ≢ 0 → int_to_str num str (count_digits 10 num) ≡ 0
unfolding int_to_str
int_to_str_end num str some_digit =
    let n = count_digits 10 num in
    let count : (put_digits 10 num 0 str).1 ≡ n = omega (arith, put_digits_count 10 num 0 str) in
    let some_count : 0 < n = count_digits_pos 9 num some_digit in
    let ended = update (put_digits 10 num 0 str).0 n 0 in
    ground (arith, reverse_cells_lem n 0 (n - 1) ended n)

-- The first `m` bytes stand for the number without its other digits.
int_to_str-value :
    (num : ℕ) (str : ℕ → ℕ) (m : ℕ)
    → num ≢ 0
    → num < u32
    → m ≤ count_digits 10 num
    → value (int_to_str num str) m ≡ shorten num (count_digits 10 num - m)
int_to_str-value num str zero some_digit small h =
    let whole : shorten num 10 ≡ 0 = omega arith in
    let n : count_digits 10 num - 0 ≡ count_digits 10 num = omega arith in
    rw n (sym (count_digits_enough 10 num whole))
int_to_str-value num str (suc m) some_digit small h =
    let n = count_digits 10 num in
    let left : n - m ≡ suc (n - suc m) = omega arith in
    let at : n - 1 - m ≡ n - suc m = omega arith in
    let ih : value (int_to_str num str) m ≡ shorten num (n - suc m) / 10 =
      int_to_str-value num str m some_digit small (omega arith) ∙ rw left in
    let digit : int_to_str num str m ≡ shorten num (n - suc m) % 10 + b'0' =
      int_to_str_digit num str m some_digit (omega arith) ∙ rw at in
    omega arith

-- The bytes are a number's digits, `n` of them and at most ten, with a NUL behind.
abbrev pub IsNumeral : (ℕ → ℕ) → ℕ → ℕ → Type 0
IsNumeral str n num =
    (1 ≤ n)
    × (n ≤ 10)
    × (value str n ≡ num)
    × (str n ≡ 0)
    × ((j : ℕ) → j < n → (b'0' ≤ str j) × (str j ≤ b'9'))

int_to_str_zero : (str : ℕ → ℕ) → IsNumeral (int_to_str 0 str) 1 0
unfolding int_to_str
int_to_str_zero str = (omega arith, omega arith, refl, refl, λ j h. ground arith)

int_to_str_some :
    (num : ℕ) (str : ℕ → ℕ)
    → num ≢ 0
    → num < u32
    → IsNumeral (int_to_str num str) (count_digits 10 num) num
int_to_str_some num str some small =
    let n = count_digits 10 num in
    let same : n - n ≡ 0 = omega arith in
    let digit = λ (j : ℕ). λ (h : j < n). int_to_str_digit num str j some h in
    (
      count_digits_pos 9 num some,
      count_digits-le 10 num,
      int_to_str-value num str n some small (omega arith) ∙ rw same,
      int_to_str_end num str some,
      λ j h. (omega (arith, digit j h), omega (arith, digit j h)),
    )

-- `intToStr` of a 32-bit number writes at most ten digits and a NUL behind them, whatever the array
-- held, and the digits stand for the number.
pub int_to_str_lem :
    (num : ℕ) (str : ℕ → ℕ) → num < u32 → IsNumeral (int_to_str num str) (text_length num) num
unfolding text_length
int_to_str_lem zero str small = int_to_str_zero str
int_to_str_lem (suc n) str small = int_to_str_some (suc n) str (omega arith) small

shorten_small : (fuel num k : ℕ) → k < fuel → shorten num k ≢ 0 → k < count_digits fuel num
unfolding count_digits
shorten_small zero num k h some = absurd (omega arith)
shorten_small (suc fuel) num zero h some = ground arith
shorten_small (suc fuel) num (suc k) h some =
    ground (arith, shorten-div num k, shorten_small fuel (num / 10) k)

-- A number of ten digits fills ten bytes, and the NUL goes into an eleventh: `printInt` and
-- `printIntVGA` hand over an array of ten.
pub int_to_str_overruns :
    (num : ℕ) (str : ℕ → ℕ)
    → 1000000000 ≤ num
    → num < u32
    → (b'0' ≤ int_to_str num str 9) × (int_to_str num str 10 ≡ 0)
int_to_str_overruns num str large small =
    let nine : shorten num 9 ≢ 0 = λ none. omega arith in
    let more : 9 < count_digits 10 num = shorten_small 10 num 9 (omega arith) nine in
    let ten : count_digits 10 num ≡ 10 = omega (arith, count_digits-le 10 num) in
    let all = int_to_str_some num str (omega arith) small in
    let ended : int_to_str num str (count_digits 10 num) ≡ 0 = all.3 in
    ((all.4 9 more).0, ap (int_to_str num str) (sym ten) ∙ ended)
