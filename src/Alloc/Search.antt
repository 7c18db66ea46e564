-- ===== src/Alloc/Search.antt =====
-- The search of `freeMem` for the block that starts at an address.
use acky.Base.{ℕ, zero, suc, ◌+◌, ◌≤◌, ◌<◌, ◌≡◌, ◌≢◌, inl, inr, some, arith, ◌==◌, Bool-cases}
use acky.Alloc.{MemEntry, find_block}

-- The search returns the first entry with the address.
pub record IsFirst (l : ℕ → MemEntry) (addr i left k : ℕ) : Type 0 where
  pub from : i ≤ k
  pub below : k < i + left
  pub hit : (l k).start_addr ≡ addr
  pub first : (j : ℕ) → i ≤ j → j < k → (l j).start_addr ≢ addr

pub find_block-IsFirst :
    (l : ℕ → MemEntry) (addr i left k : ℕ)
    → find_block l addr i left ≡ some k
    → IsFirst l addr i left k
unfolding find_block
find_block-IsFirst l addr i zero k h = absurd (ground arith)
find_block-IsFirst l addr i (suc left) k h = elim (Bool-cases ((l i).start_addr == addr)) [
  | inl here ↦ record {
    from = ground arith;
    below = ground arith;
    hit = ground arith;
    first = λ j a b. absurd (ground arith);
  }
  | inr further ↦
      let r = find_block-IsFirst l addr (i + 1) left k (ground arith) in
      record {
        from = omega (arith, r.from);
        below = omega (arith, r.below);
        hit = r.hit;
        first = λ j a b. elim (Bool-cases (i == j)) [
          | inl e ↦ ground arith
          | inr ne ↦ r.first j (ground arith) b
        ];
      }
]

pub find_block-found :
    (l : ℕ → MemEntry) (addr i left k : ℕ)
    → i ≤ k
    → k < i + left
    → (l k).start_addr ≡ addr
    → ((j : ℕ) → i ≤ j → j < k → (l j).start_addr ≢ addr)
    → find_block l addr i left ≡ some k
unfolding find_block
find_block-found l addr i zero k a b hit first = absurd (omega arith)
find_block-found l addr i (suc left) k a b hit first = elim (Bool-cases (i == k)) [
  | inl e ↦ ground arith
  | inr ne ↦ ground (
    arith,
    first i,
    find_block-found l addr (i + 1) left k (ground arith) (omega arith) hit
        (λ j p q. first j (omega arith) q),
  )
]
