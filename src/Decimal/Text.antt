-- ===== src/Decimal/Text.antt =====
-- The text that `printInt` of foki/vga.c prints and `serialSendInt` of foki/serial.c sends: the array up to its NUL.
use acky.Base.{ℕ, List}
use acky.Decimal.{int_to_str}
use acky.Fs.{text_at}

unfoldable pub int_text : ℕ → List ℕ
unfolding int_to_str
int_text n = text_at (int_to_str n (λ i. 0)) 0 11
