-- ===== src/Ram/Copy.antt =====
-- What `memcpy` and `memset` leave in memory.
use acky.Base.{
  ℕ, zero, suc, ◌+◌, ◌-◌, ◌%◌, ◌≤◌, ◌<◌, ◌≡◌, refl, add32, ◌⊎◌, ◌&&◌, ltb, leb, if◌then◌else◌,
  update, u32, arith,
}
use acky.Ram.{Ram, memcpy, memset}

-- Where the destination starts no later than the source, or the source ends before the
-- destination, and neither range reaches the end of the address space, `memcpy` leaves the old
-- source bytes in the destination and every other byte as it was.
pub memcpy_lem :
    (m : Ram) (dest src n a : ℕ)
    → dest + n < u32
    → src + n < u32
    → ((dest ≤ src) ⊎ (src + n ≤ dest))
    → memcpy m dest src n a ≡ (if leb dest a && ltb a (dest + n) then m (src + (a - dest)) else m a)
unfolding memcpy
memcpy_lem m dest src zero a hd hs apart = ground arith
memcpy_lem m dest src (suc n) a hd hs apart =
    ground (arith, memcpy_lem (update m dest (m src)) (dest + 1) (src + 1) n a)

-- Wherever the source lies, `memcpy` writes only to its destination.
pub memcpy_frame :
    (m : Ram) (dest src n a : ℕ)
    → dest + n < u32
    → ((a < dest) ⊎ (dest + n ≤ a))
    → memcpy m dest src n a ≡ m a
unfolding memcpy
memcpy_frame m dest src zero a h out = refl
memcpy_frame m dest src (suc n) a h out =
    ground (arith, memcpy_frame (update m dest (m src)) (dest + 1) (add32 src 1) n a)

-- `memset` of a range that does not reach the end of the address space sets each of its bytes to
-- the low byte of the value, and no other.
pub memset_lem :
    (m : Ram) (ptr value num a : ℕ)
    → ptr + num < u32
    → memset m ptr value num a ≡ (if leb ptr a && ltb a (ptr + num) then value % 256 else m a)
unfolding memset
memset_lem m ptr value zero a h = ground arith
memset_lem m ptr value (suc num) a h =
    ground (arith, memset_lem (update m ptr (value % 256)) (ptr + 1) value num a)
