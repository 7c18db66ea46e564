-- ===== src/Base/Shifting.antt =====
-- The loop that closes a gap in an array: each later cell is changed in place, then copied one down.
use Prim.Native.Nat.{ℕ, zero, suc, ◌+◌, ◌<◌, ◌≤◌}
use mathlib.Core.Path.{◌≡◌, refl, ◌∙◌}
use mathlib.Core.Logic.{inl, inr}
use native.Mathlib.Omega.{arith}
use mathlib.Core.Bool.{true, false}
use acky.Base.Tests.{◌==◌, Bool-cases}
use acky.Base.Arrays.{update}

module _ {ℓ} {A : Type ℓ} (f : A → A) where
  -- `l[j + 1] = f(l[j + 1]); l[j] = l[j + 1];`, from `j` on, with `left` rounds to go.
  unfoldable pub shift_down : (ℕ → A) → ℕ → ℕ → ℕ → A
  shift_down l j zero = l
  shift_down l j (suc left) =
      let moved = f (l (j + 1)) in shift_down (update (update l (j + 1) moved) j moved) (j + 1) left

  abbrev round : (ℕ → A) → ℕ → ℕ → A
  round l j = update (update l (j + 1) (f (l (j + 1)))) j (f (l (j + 1)))

  pub shift_down-below : (l : ℕ → A) (j left x : ℕ) → x < j → shift_down l j left x ≡ l x
  unfolding shift_down
  shift_down-below l j zero x h = refl
  shift_down-below l j (suc left) x h = ground (arith, shift_down-below (round l j) (j + 1) left x)

  pub shift_down-above : (l : ℕ → A) (j left x : ℕ) → j + left < x → shift_down l j left x ≡ l x
  unfolding shift_down
  shift_down-above l j zero x h = refl
  shift_down-above l j (suc left) x h = ground (arith, shift_down-above (round l j) (j + 1) left x)

  -- The cell at `x` is now the changed one that stood behind it.
  pub shift_down-within :
      (l : ℕ → A) (j left x : ℕ) → j ≤ x → x < j + left → shift_down l j left x ≡ f (l (x + 1))
  unfolding shift_down
  shift_down-within l j zero x a b = absurd (omega arith)
  shift_down-within l j (suc left) x a b = elim (Bool-cases (j == x)) [
    | inl here ↦
        let e : j ≡ x = ground arith in
        let same : (j == j) ≡ true = ground arith in
        rw (← e) (shift_down-below (round l j) (j + 1) left j (omega arith) ∙ rw same)
    | inr there ↦
        let past : (j + 1 == x + 1) ≡ false = ground arith in
        let past' : (j == x + 1) ≡ false = ground arith in
        shift_down-within (round l j) (j + 1) left x (ground arith) (omega arith) ∙ rw (past', past)
  ]

  -- Behind the last moved cell its changed copy is left.
  pub shift_down-last :
      (l : ℕ → A) (j left : ℕ) → shift_down l j (suc left) (j + suc left) ≡ f (l (j + suc left))
  unfolding shift_down
  shift_down-last l j zero = let e : j + 1 ≡ j + suc zero = omega arith in ground arith
  shift_down-last l j (suc left) =
      let e : j + 1 + suc left ≡ j + suc (suc left) = omega arith in
      ground (arith, shift_down-last (round l j) (j + 1) left)
