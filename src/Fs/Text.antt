-- ===== src/Fs/Text.antt =====
-- A text in memory is what stands in front of its NUL, however far the reading may go.
use acky.Base.{
  ℕ, zero, suc, ◌+◌, ◌-◌, ◌<◌, ◌≤◌, ◌≡◌, ◌≢◌, arith, ap, ◌∙◌, ◌==◌, Bool-cases, inl, inr, List, ◌∷◌,
  refl,
}
use acky.Fs.{text_at}

-- Two readings that agree up to a NUL, `n` bytes on, and go beyond it give the same text.
pub text_at-until :
    (v u : ℕ → ℕ) (i j n a b : ℕ)
    → n < a
    → n < b
    → ((k : ℕ) → k ≤ n → v (i + k) ≡ u (j + k))
    → u (j + n) ≡ 0
    → text_at v i a ≡ text_at u j b
text_at-until v u i j n zero b ha hb same end = absurd (omega arith)
text_at-until v u i j n (suc a) zero ha hb same end = absurd (omega arith)
text_at-until v u i j n (suc a) (suc b) ha hb same end =
    let first : v i ≡ u j = ap v (omega arith) ∙ same 0 (omega arith) ∙ ap u (omega arith) in
    elim (Bool-cases (u j == 0)) [
      | inl over ↦ rw (first, over) refl
      | inr more ↦
          let some_left : n ≢ 0 = λ e.
            let last : u j ≡ 0 = ap u (omega (arith, e)) ∙ end in
            absurd (ground (arith, last, more)) in
          let rest =
            text_at-until v u (i + 1) (j + 1) (n - 1) a b (omega (arith, ha, some_left))
              (omega (arith, hb, some_left))
              (λ k h.
                ap v (omega arith)
                ∙ same (k + 1) (omega (arith, h, some_left))
                ∙ ap u (omega arith))
              (ap u (omega (arith, some_left)) ∙ end) in
          rw (first, more) (ap (λ (cs : List ℕ). u j ∷ cs) rest)
    ]
