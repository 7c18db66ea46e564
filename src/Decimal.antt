-- ===== src/Decimal.antt =====
-- `intToStr` of foki/vga.c: a `uint32_t` in decimal, into an array of bytes. The digits are put down
-- from the last to the first and reversed in place. Both loops run on fuel: ten rounds are enough
-- for the digits of a 32-bit number, and as many as there are digits for the reversal.
mod Tests
pub mod Digits
pub mod Text
use acky.Base.{ℕ, zero, suc, ◌+◌, ◌-◌, ◌/◌, ◌%◌, if◌then◌else◌, ◌==◌, ltb, update}

-- `while (num != 0) { str[i++] = (num % 10) + '0'; num /= 10; }`: the array and the last `i`.
unfoldable pub put_digits : ℕ → ℕ → ℕ → (ℕ → ℕ) → (ℕ → ℕ) × ℕ
put_digits zero num i str = (str, i)
put_digits (suc fuel) num i str =
    let rest = put_digits fuel (num / 10) (i + 1) (update str i (num % 10 + b'0')) in
    if num == 0 then (str, i) else rest

-- `while (start < end)`: the two cells are swapped.
unfoldable pub reverse_cells : ℕ → ℕ → ℕ → (ℕ → ℕ) → ℕ → ℕ
reverse_cells zero start end str = str
reverse_cells (suc fuel) start end str =
    let rest =
      reverse_cells fuel (start + 1) (end - 1)
        (update (update str start (str end)) end (str start)) in
    if ltb start end then rest else str

unfoldable pub int_to_str : ℕ → (ℕ → ℕ) → ℕ → ℕ
int_to_str num str =
    if num == 0
    then update (update str 0 b'0') 1 0
    else let (digits, i) = put_digits 10 num 0 str in reverse_cells i 0 (i - 1) (update digits i 0)
