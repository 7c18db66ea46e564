-- ===== src/Decimal/Tests.antt =====
-- Tests of `intToStr`, and its theorems at concrete numbers.
use acky.Base.{ℕ, ◌≤◌, ◌≡◌, refl, arith}
use acky.Decimal.{int_to_str, reverse_cells, put_digits}
use acky.Decimal.Digits.{IsNumeral, text_length, int_to_str_lem, int_to_str_overruns}

abbrev buffer : ℕ → ℕ
buffer i = 0xFF

shown_4096 : (int_to_str 4096 buffer 0 ≡ b'4') × (int_to_str 4096 buffer 3 ≡ b'6')
unfolding int_to_str reverse_cells put_digits
shown_4096 = (refl, refl)

int_to_str_lem_example : IsNumeral (int_to_str 4096 buffer) (text_length 4096) 4096
int_to_str_lem_example = int_to_str_lem 4096 buffer (omega arith)

int_to_str_overruns_example :
    (b'0' ≤ int_to_str 4294967295 buffer 9) × (int_to_str 4294967295 buffer 10 ≡ 0)
int_to_str_overruns_example = int_to_str_overruns 4294967295 buffer (omega arith) (omega arith)
