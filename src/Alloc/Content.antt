-- ===== src/Alloc/Content.antt =====
-- `freeMem` as its callers see it: which calls free a block, and what the other blocks keep.
use acky.Base.{
  ℕ, ◌+◌, ◌-◌, ◌≤◌, ◌<◌, ◌≡◌, ◌≢◌, refl, ◌⊎◌, u32, arith, ◌==◌, inl, inr, Bool-cases, if◌then◌else◌,
  ltb, false, some, none, Option-cases, done, ap, ◌∙◌,
}
use acky.Alloc.{Allocator, release, find_block, free_mem, alloc_mem}
use acky.Alloc.Inv.{IsValid, top, end-le-start, end-le-top}
use acky.Alloc.Grant.{alloc_mem-Granted}
use acky.Alloc.Search.{find_block-IsFirst, find_block-found}
use acky.Alloc.Release.{Released, release-Released}

-- No block in front of block `k` starts at the same address, unless that is 0.
earlier-ne :
    (s : Allocator) (v : IsValid s) (k : ℕ)
    → k < s.mem_index
    → 0 < (s.mem_list k).start_addr
    → (j : ℕ) → 0 ≤ j
    → j < k
    → (s.mem_list j).start_addr ≢ (s.mem_list k).start_addr
earlier-ne s v k used away j a b e = elim (Bool-cases (j == 0)) [
  | inl first ↦ absurd (ground (arith, v.null_start))
  | inr behind ↦
      absurd (ground (arith, v.non_empty j, end-le-start s.mem_list s.mem_index j k v.adjacent))
]

-- Freeing the address where a block other than the kernel's starts returns that address and takes
-- out exactly that block.
pub free_mem-Released :
    (s : Allocator) (k : ℕ)
    → IsValid s
    → 0 < k
    → k < s.mem_index
    → 0 < (s.mem_list k).start_addr
    → (s' : Allocator) × (free_mem s (s.mem_list k).start_addr
        ≡ (some (s.mem_list k).start_addr, s'))
      × Released s k s'
unfolding free_mem
free_mem-Released s k v pos used away =
    let found =
      find_block-found s.mem_list (s.mem_list k).start_addr 0 s.mem_index k (omega arith)
        (omega arith) refl (earlier-ne s v k used away) in
    let given : ((s.mem_list k).start_addr == 0) ≡ false = ground arith in
    (release s (s.mem_list k).start_addr k, rw (given, found), release-Released s v k pos used)

-- Freeing address 0, where the kernel lies, or an address where no block starts reports failure
-- and changes nothing.
pub free_mem-unknown :
    (s : Allocator) (addr : ℕ)
    → ((addr ≡ 0) ⊎ ((i : ℕ) → i < s.mem_index → (s.mem_list i).start_addr ≢ addr))
    → free_mem s addr ≡ (none, s)
unfolding free_mem
free_mem-unknown s addr (inl zero_addr) = ground arith
free_mem-unknown s addr (inr unknown) =
    elim (Option-cases (find_block s.mem_list addr 0 s.mem_index)) [
      | inl missing ↦ ground arith
      | inr (i, found) ↦
          let first = find_block-IsFirst s.mem_list addr 0 s.mem_index i found in
          absurd (unknown i (omega (arith, first.below)) first.hit)
    ]

-- `freeMem` keeps the list valid, whatever address it is given.
pub free_mem-IsValid : (s : Allocator) (addr : ℕ) → IsValid s → IsValid (free_mem s addr).1
unfolding free_mem
free_mem-IsValid s addr v = elim (Bool-cases (addr == 0)) [
  | inl null ↦ rw null v
  | inr given ↦ elim (Option-cases (find_block s.mem_list addr 0 s.mem_index)) [
    | inl missing ↦ rw (given, missing) v
    | inr (i, found) ↦
        let first = find_block-IsFirst s.mem_list addr 0 s.mem_index i found in
        let here : addr ≡ (s.mem_list i).start_addr = ground (arith, first.hit) in
        let behind : 0 < i = ground (arith, v.null_start) in
        rw (given, found)
          (rw here (release-Released s v i behind (omega (arith, first.below))).valid)
  ]
]

-- The bytes of the block at index `i`.
abbrev pub contents : Allocator → ℕ → ℕ → ℕ
contents s i off = s.ram ((s.mem_list i).start_addr + off)

-- The index that a block had before block `k` was taken out.
abbrev pub old_index : ℕ → ℕ → ℕ
old_index k i = if ltb i k then i else i + 1

-- Every block that is left after block `k` is taken out has the size that it had and holds, at its
-- new place, the bytes that it held at its old one.
pub Released-contents :
    (s s' : Allocator) (k : ℕ)
    → IsValid s
    → 0 < k
    → k < s.mem_index
    → Released s k s'
    → (i off : ℕ) → i < s'.mem_index
    → off < (s'.mem_list i).size
    → ((s'.mem_list i).size ≡ (s.mem_list (old_index k i)).size)
      × (contents s' i off ≡ contents s (old_index k i) off)
Released-contents s s' k v pos used r i off h inside = elim (Bool-cases (ltb i k)) [
  | inl below ↦ (
    ground (arith, r.before i),
    ground (
      arith,
      r.before i,
      r.low ((s.mem_list i).start_addr + off),
      end-le-start s.mem_list s.mem_index i k v.adjacent,
    ),
  )
  | inr above ↦
      let old : i < s.mem_index - 1 = omega (arith, r.shrunk) in
      let starts = r.behind_start i (ground arith) old in
      let inside' : off < (s.mem_list (i + 1)).size = ground (arith, r.behind_size i) in
      let from : (s.mem_list k).start_addr ≤ (s'.mem_list i).start_addr =
        ground (arith, end-le-start s.mem_list s.mem_index k (i + 1) v.adjacent) in
      let to : (s'.mem_list i).start_addr + off < top s' =
        omega (arith, r.new_top, end-le-top v (i + 1) (omega arith)) in
      let shifted : (s'.mem_list i).start_addr + off + (s.mem_list k).size
          ≡ (s.mem_list (i + 1)).start_addr + off =
        omega arith in
      (ground (arith, r.behind_size i), ground (arith, r.moved ((s'.mem_list i).start_addr + off)))
]

-- In a valid list, freeing the address where a block other than the first starts, which is not 0, succeeds, and every block that is left has the
-- size that it had and holds, at its new place, the bytes that it held at its old one.
pub free_mem-contents :
    (s : Allocator) (k : ℕ)
    → IsValid s
    → 0 < k
    → k < s.mem_index
    → 0 < (s.mem_list k).start_addr
    → (s' : Allocator) × (free_mem s (s.mem_list k).start_addr
        ≡ (some (s.mem_list k).start_addr, s'))
      × (s'.mem_index + 1 ≡ s.mem_index)
      × ((i off : ℕ)
          → i < s'.mem_index
          → off < (s'.mem_list i).size
          → ((s'.mem_list i).size ≡ (s.mem_list (old_index k i)).size)
            × (contents s' i off ≡ contents s (old_index k i) off))
free_mem-contents s k v pos used away =
    let (s', run, r) = free_mem-Released s k v pos used away in
    (s', run, omega (arith, r.shrunk, used), Released-contents s s' k v pos used r)

-- In a valid list whose last block does not end at 0, a block of at least one byte that ends in the 32-bit address
-- space and is granted and freed at once leaves the list and the bytes below its address as they
-- were before the grant.
pub free_mem-alloc_mem :
    (s : Allocator) (size start : ℕ) (s' : Allocator)
    → IsValid s
    → 0 < size
    → 0 < top s
    → top s + size < u32
    → alloc_mem s size ≡ done (start, s')
    → (s'' : Allocator) × (free_mem s' start ≡ (some start, s''))
      × (s''.mem_index ≡ s.mem_index)
      × ((i : ℕ) → i < s.mem_index → s''.mem_list i ≡ s.mem_list i)
      × ((a : ℕ) → a < start → s''.ram a ≡ s.ram a)
free_mem-alloc_mem s size start s' v p away fits e =
    let g = alloc_mem-Granted s size start s' v p fits e in
    let at : (s'.mem_list s.mem_index).start_addr ≡ start =
      ground (arith, g.block_start, g.at_top) in
    let (s'', freed, r) =
      free_mem-Released s' s.mem_index g.valid v.positive (omega (arith, g.grown))
        (omega (arith, g.block_start)) in
    (
      s'',
      ground (arith, freed),
      omega (arith, r.shrunk, g.grown),
      λ i h. r.before i h ∙ g.kept i h,
      λ a h. r.low a (omega arith) ∙ ap (λ (m : ℕ → ℕ). m a) g.same_ram,
    )
