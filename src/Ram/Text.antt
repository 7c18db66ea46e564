-- ===== src/Ram/Text.antt =====
-- What `strcpy`, `strcmp` and `memcmp` do with the texts and bytes that memory holds.
use acky.Base.{
  ℕ, zero, suc, ◌+◌, ◌≤◌, ◌<◌, ◌≡◌, refl, ◌≢◌, ◌⊎◌, ◌↔◌, some, List, [], ◌∷◌, ◌==◌, update, u32,
  arith, length, inl, inr, Bool-cases,
}
use acky.Base.Int.{ℤ, pos, ◌-ℤ◌, signed8}
use acky.Ram.{Ram, memcpy, strcpy, strcmp, memcmp_from, memcmp}

-- The bytes of the text, none of them NUL, stand from `p` on, with a NUL behind them.
abbrev pub HoldsText : Ram → ℕ → List ℕ → Type 0
HoldsText m p [] = m p ≡ 0
HoldsText m p (c ∷ t) = (m p ≡ c) × (c ≢ 0) × HoldsText m (p + 1) t

-- A write outside the text and its NUL leaves it in place.
HoldsText-update :
    (m : Ram) (p a v : ℕ) (t : List ℕ)
    → ((a < p) ⊎ (p + length t < a))
    → HoldsText m p t
    → HoldsText (update m a v) p t
HoldsText-update m p a v [] out h = ground arith
HoldsText-update m p a v (c ∷ t) out (e, n, h) =
    (ground arith, n, HoldsText-update m (p + 1) a v t (ground arith) h)

-- `strcpy` of a text copies it with its NUL, as `memcpy` of one more byte than its length does,
-- where the copy starts no later than the text or behind its NUL and neither reaches the end of
-- the address space; fuel above the length is enough.
pub strcpy-memcpy :
    (fuel : ℕ) (m : Ram) (dest src : ℕ) (t : List ℕ)
    → HoldsText m src t
    → length t < fuel
    → dest + length t + 1 < u32
    → src + length t + 1 < u32
    → ((dest ≤ src) ⊎ (src + length t + 1 ≤ dest))
    → strcpy fuel m dest src ≡ some (memcpy m dest src (suc (length t)))
unfolding strcpy memcpy
strcpy-memcpy zero m dest src t h f hd hs apart = absurd (omega arith)
strcpy-memcpy (suc fuel) m dest src [] h f hd hs apart = rw h
strcpy-memcpy (suc fuel) m dest src (c ∷ t) (e, n, h) f hd hs apart =
    let kept = HoldsText-update m (src + 1) dest (m src) t (ground arith) h in
    ground (
      arith,
      strcpy-memcpy fuel (update m dest (m src)) (dest + 1) (src + 1) t kept (omega arith)
          (omega arith) (omega arith) (ground arith),
    )

-- `strcmp` of two texts is total, and 0 exactly when they are the same, where their bytes are
-- bytes and neither reaches the end of the address space; fuel above the first length is enough.
pub strcmp-zero_iff :
    (fuel : ℕ) (m : Ram) (s1 s2 : ℕ) (t u : List ℕ)
    → ((a : ℕ) → m a < 256)
    → HoldsText m s1 t
    → HoldsText m s2 u
    → length t < fuel
    → s1 + length t + 1 < u32
    → s2 + length u + 1 < u32
    → (z : ℤ) × (strcmp fuel m s1 s2 ≡ some z) × ((z ≡ pos 0) ↔ (t ≡ u))
unfolding strcmp ◌-ℤ◌
strcmp-zero_iff zero m s1 s2 t u b h k f l1 l2 = absurd (omega arith)
strcmp-zero_iff (suc fuel) m s1 s2 [] [] b h k f l1 l2 = (pos 0, ground arith, ground arith)
strcmp-zero_iff (suc fuel) m s1 s2 [] (d ∷ u) b h (k, n, r) f l1 l2 =
    (signed8 (m s1) -ℤ signed8 (m s2), ground arith, ground (arith, b s2))
strcmp-zero_iff (suc fuel) m s1 s2 (c ∷ t) [] b (h, n, r) k f l1 l2 =
    (signed8 (m s1) -ℤ signed8 (m s2), ground arith, ground (arith, b s1))
strcmp-zero_iff (suc fuel) m s1 s2 (c ∷ t) (d ∷ u) b (h, n, r) (k, n', r') f l1 l2 =
    elim (Bool-cases (m s1 == m s2)) [
      | inl same ↦
          let (z, run, zero_iff) =
            strcmp-zero_iff fuel m (s1 + 1) (s2 + 1) t u b r r' (omega arith) (omega arith)
              (omega arith) in
          (z, ground arith, ground arith)
      | inr differ ↦ (signed8 (m s1) -ℤ signed8 (m s2), ground arith, ground (arith, b s1, b s2))
    ]

memcmp_from-zero_iff :
    (m : Ram) (a b i n : ℕ)
    → a + i + n < u32
    → b + i + n < u32
    → (memcmp_from m a b i n ≡ pos 0) ↔ ((k : ℕ) → i ≤ k → k < i + n → m (a + k) ≡ m (b + k))
unfolding memcmp_from
memcmp_from-zero_iff m a b i zero ha hb = (λ e k l u. absurd (omega arith), λ h. refl)
memcmp_from-zero_iff m a b i (suc n) ha hb =
    let ih = memcmp_from-zero_iff m a b (i + 1) n (omega arith) (omega arith) in
    elim (Bool-cases (m (a + i) == m (b + i))) [
      | inl same ↦ (
        λ e k l u. elim (Bool-cases (i == k)) [
          | inl here ↦ ground arith
          | inr there ↦ ih.0 (ground arith) k (ground arith) (omega arith)
        ],
        λ h. ground (arith, ih.1 (λ k l u. h k (omega arith) (omega arith))),
      )
      | inr differ ↦ (λ e. absurd (ground arith), λ h. absurd (ground (arith, h i)))
    ]

-- `memcmp` returns 0 exactly when the two ranges hold the same bytes, where neither reaches the
-- end of the address space.
pub memcmp-zero_iff :
    (m : Ram) (a b len : ℕ)
    → a + len < u32
    → b + len < u32
    → (memcmp m a b len ≡ pos 0) ↔ ((k : ℕ) → k < len → m (a + k) ≡ m (b + k))
unfolding memcmp
memcmp-zero_iff m a b len ha hb =
    let same = memcmp_from-zero_iff m a b 0 len (omega arith) (omega arith) in
    (λ e k u. same.0 e k (omega arith) (omega arith), λ h. same.1 (λ k l u. h k (omega arith)))
