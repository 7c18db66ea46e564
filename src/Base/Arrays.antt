-- ===== src/Base/Arrays.antt =====
-- A C array as a function of its index, and one assignment to a cell.
use Prim.Native.Nat.{ℕ}
use acky.Base.Tests.{◌==◌, if◌then◌else◌}

-- `f[i] = v`
abbrev pub update {ℓ} : {A : Type ℓ} → (ℕ → A) → ℕ → A → ℕ → A
update f i v j = if i == j then v else f j
