-- ===== src/Base/Words.antt =====
-- Arithmetic of `uint32_t`: every result is taken modulo 2 ^ 32.
use Prim.Native.Nat.{ℕ, ◌+◌, ◌-◌, ◌*◌, ◌%◌, ◌^◌}

abbrev pub u32 : ℕ
u32 = 2 ^ 32

abbrev pub add32 : ℕ → ℕ → ℕ
add32 a b = (a + b) % u32

-- `-` on ℕ stops at 0, so the modulus is added first; both arguments are below it.
abbrev pub sub32 : ℕ → ℕ → ℕ
sub32 a b = (a + u32 - b) % u32

abbrev pub mul32 : ℕ → ℕ → ℕ
mul32 a b = (a * b) % u32
