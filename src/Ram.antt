-- ===== src/Ram.antt =====
-- The byte routines of foki/memory.c. `Ram` is the physical memory, a byte to each 32-bit address;
-- a pointer that is stepped past the last address wraps round. `memcpy`, `memset` and `memcmp` run
-- for a count; `strcpy` and `strcmp` stop at a NUL byte, so they take fuel, which `Ram.Text` shows
-- to be enough at one more than the length of the text.
mod Tests
pub mod Copy
pub mod Text
use acky.Base.{
  ℕ, zero, suc, ◌+◌, ◌%◌, if◌then◌else◌, ◌==◌, ◌&&◌, not, update, add32, Option, none, some, Bool,
}
use acky.Base.Int.{ℤ, pos, sub_ℕ, ◌-ℤ◌, signed8}

abbrev pub Ram : Type 0
Ram = ℕ → ℕ

-- `while (n--) *d++ = *s++;`
unfoldable pub memcpy : Ram → ℕ → ℕ → ℕ → Ram
memcpy m dest src zero = m
memcpy m dest src (suc n) = memcpy (update m dest (m src)) (add32 dest 1) (add32 src 1) n

-- `while (num--) *p++ = (unsigned char)value;`
unfoldable pub memset : Ram → ℕ → ℕ → ℕ → Ram
memset m ptr value zero = m
memset m ptr value (suc num) = memset (update m ptr (value % 256)) (add32 ptr 1) value num

-- `while (*src) { *dest = *src; dest++; src++; } *dest = 0;`
unfoldable pub strcpy : ℕ → Ram → ℕ → ℕ → Option Ram
strcpy zero m dest src = none
strcpy (suc fuel) m dest src =
    let rest = strcpy fuel (update m dest (m src)) (add32 dest 1) (add32 src 1) in
    if m src == 0 then some (update m dest 0) else rest

-- `while (*s1 && *s2 && *s1 == *s2) { s1++; s2++; } return *s1 - *s2;`, where `char` is signed.
unfoldable pub strcmp : ℕ → Ram → ℕ → ℕ → Option ℤ
strcmp zero m s1 s2 = none
strcmp (suc fuel) m s1 s2 =
    let rest = strcmp fuel m (add32 s1 1) (add32 s2 1) in
    if not (m s1 == 0) && not (m s2 == 0) && m s1 == m s2
    then rest
    else some (signed8 (m s1) -ℤ signed8 (m s2))

-- `for (i = 0; i < len; i++) if (pa[i] != pb[i]) return pa[i] - pb[i]; return 0;`, from `i` on,
-- with `left` rounds to go.
unfoldable pub memcmp_from : Ram → ℕ → ℕ → ℕ → ℕ → ℤ
memcmp_from m a b i zero = pos 0
memcmp_from m a b i (suc left) =
    let rest = memcmp_from m a b (i + 1) left in
    if m (add32 a i) == m (add32 b i) then rest else sub_ℕ (m (add32 a i)) (m (add32 b i))

unfoldable pub memcmp : Ram → ℕ → ℕ → ℕ → ℤ
unfolding memcmp_from
memcmp m a b len = memcmp_from m a b 0 len
