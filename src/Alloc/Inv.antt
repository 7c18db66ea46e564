-- ===== src/Alloc/Inv.antt =====
-- The invariant of the block list: the blocks in use lie end to end from address 0, the first of
-- them empty, the others not, and they end inside the address space.
use acky.Base.{ℕ, zero, suc, ◌+◌, ◌-◌, ◌≤◌, ◌<◌, ◌≡◌, u32, arith, inl, inr, ◌==◌, Bool-cases}
use acky.Alloc.{MemEntry, Allocator, mem_list_size}

-- Each of the entries below `n` starts where the one before ends.
abbrev pub Adjacent : (ℕ → MemEntry) → ℕ → Type 0
Adjacent l n = (i : ℕ) → suc i < n → (l (suc i)).start_addr ≡ (l i).start_addr + (l i).size

-- Only the null entry is empty.
abbrev pub NonEmpty : (ℕ → MemEntry) → ℕ → Type 0
NonEmpty l n = (i : ℕ) → 0 < i → i < n → 0 < (l i).size

-- The first address behind an entry.
abbrev pub end_of : MemEntry → ℕ
end_of e = e.start_addr + e.size

-- The first address behind all blocks.
abbrev pub top : Allocator → ℕ
top s = end_of (s.mem_list (s.mem_index - 1))

pub record IsValid (s : Allocator) : Type 0 where
  pub null_start : (s.mem_list 0).start_addr ≡ 0
  pub null_size : (s.mem_list 0).size ≡ 0
  pub positive : 0 < s.mem_index
  pub bounded : s.mem_index ≤ mem_list_size
  pub adjacent : Adjacent s.mem_list s.mem_index
  pub non_empty : NonEmpty s.mem_list s.mem_index
  pub top-lt : top s < u32

-- A block ends no later than any block behind it starts.
pub blocks_ordered :
    (l : ℕ → MemEntry) (n i d : ℕ)
    → Adjacent l n
    → i + suc d < n
    → end_of (l i) ≤ (l (i + suc d)).start_addr
blocks_ordered l n i zero adj h =
    let e : i + 1 ≡ suc i = omega arith in ground (arith, adj i (omega arith))
blocks_ordered l n i (suc d) adj h =
    let e : i + suc (suc d) ≡ suc (i + suc d) = omega arith in
    ground (arith, adj (i + suc d) (omega arith), blocks_ordered l n i d adj (omega arith))

pub end-le-start :
    (l : ℕ → MemEntry) (n i k : ℕ) → Adjacent l n → i < k → k < n → end_of (l i) ≤ (l k).start_addr
end-le-start l n i k adj lt h =
    let e : i + suc (k - i - 1) ≡ k = omega arith in
    ground (arith, blocks_ordered l n i (k - i - 1) adj (omega arith))

pub end-le-top :
    {s : Allocator} (v : IsValid s) (i : ℕ) → i < s.mem_index → end_of (s.mem_list i) ≤ top s
end-le-top {s} v i h = elim (Bool-cases (i == (s.mem_index - 1))) [
  | inl last ↦ ground arith
  | inr other ↦ ground (arith, end-le-start s.mem_list s.mem_index i (s.mem_index - 1) v.adjacent)
]
