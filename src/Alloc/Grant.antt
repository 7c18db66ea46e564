-- ===== src/Alloc/Grant.antt =====
-- What `allocMem` grants, and when it stops the machine.
use acky.Base.{
  ℕ, suc, ◌+◌, ◌-◌, ◌≤◌, ◌<◌, ◌≡◌, refl, u32, arith, ◌==◌, inl, inr, Bool-cases, update,
  if◌then◌else◌, done, halted, Panic, ltb, leb, add32,
}
use acky.Alloc.{entry, Allocator, mem_list_size, alloc_mem, init_mem}
use acky.Alloc.Inv.{IsValid, top, end_of}

-- What a grant leaves: the new block lies behind all others, which stay as they were.
pub record Granted (s : Allocator) (size start : ℕ) (s' : Allocator) : Type 0 where
  pub valid : IsValid s'
  pub at_top : start ≡ top s
  pub grown : s'.mem_index ≡ s.mem_index + 1
  pub block_start : (s'.mem_list s.mem_index).start_addr ≡ top s
  pub block_size : (s'.mem_list s.mem_index).size ≡ size
  pub kept : (i : ℕ) → i < s.mem_index → s'.mem_list i ≡ s.mem_list i
  pub same_ram : s'.ram ≡ s.ram
  pub same_memory : s'.system_memory ≡ s.system_memory

-- The state that a grant leaves behind.
abbrev with_block : Allocator → ℕ → Allocator
with_block s size = record s {
  mem_list = update s.mem_list s.mem_index (entry (top s) size);
  mem_index = s.mem_index + 1;
}

with_block-IsValid :
    (s : Allocator) (size : ℕ)
    → IsValid s
    → 0 < size
    → top s + size < u32
    → s.mem_index < mem_list_size
    → IsValid (with_block s size)
with_block-IsValid s size v p h r = record {
  null_start = ground (arith, v.positive, v.null_start);
  null_size = ground (arith, v.positive, v.null_size);
  positive = omega arith;
  bounded = omega arith;
  adjacent = λ i a. elim (Bool-cases (s.mem_index == suc i)) [
    | inl e ↦ let e' : i ≡ s.mem_index - 1 = ground arith in ground arith
    | inr ne ↦ ground (arith, v.adjacent i)
  ];
  non_empty = λ i a b. ground (arith, v.non_empty i a);
  top-lt = let e : s.mem_index + 1 - 1 ≡ s.mem_index = omega arith in rw e (ground arith);
}

with_block-Granted :
    (s : Allocator) (size : ℕ)
    → IsValid s
    → 0 < size
    → top s + size < u32
    → s.mem_index < mem_list_size
    → Granted s size (top s) (with_block s size)
with_block-Granted s size v p h r = record {
  valid = with_block-IsValid s size v p h r;
  at_top = refl;
  grown = refl;
  block_start = ground arith;
  block_size = ground arith;
  kept = λ i a. ground arith;
  same_ram = refl;
  same_memory = refl;
}

-- The three outcomes of a call in a valid list.
alloc_mem-cases :
    (s : Allocator) (size : ℕ)
    → IsValid s
    → alloc_mem s size ≡ (
        if ltb s.system_memory (add32 (s.mem_list (s.mem_index - 1)).start_addr size)
        then halted Panic.out_of_memory
        else if leb mem_list_size s.mem_index
        then halted Panic.memory_list_overflow
        else done (top s, with_block s size))
unfolding alloc_mem
alloc_mem-cases s size v =
    let last = s.mem_list (s.mem_index - 1) in
    let e : add32 last.start_addr last.size ≡ top s = ground (arith, v.top-lt) in rw e

alloc_mem-done :
    (s : Allocator) (size start : ℕ) (s' : Allocator)
    → IsValid s
    → alloc_mem s size ≡ done (start, s')
    → (start ≡ top s)
      × (s' ≡ with_block s size)
      × (s.mem_index < mem_list_size)
      × (add32 (s.mem_list (s.mem_index - 1)).start_addr size ≤ s.system_memory)
alloc_mem-done s size start s' v e = ground (arith, alloc_mem-cases s size v)

-- In a valid list, every grant of a non-empty block that ends inside the address space keeps the
-- list valid, puts the block directly behind the last one, and changes no other entry and no byte
-- of memory.
pub alloc_mem-Granted :
    (s : Allocator) (size start : ℕ) (s' : Allocator)
    → IsValid s
    → 0 < size
    → top s + size < u32
    → alloc_mem s size ≡ done (start, s')
    → Granted s size start s'
alloc_mem-Granted s size start s' v p h e =
    let (a, b, r, _) = alloc_mem-done s size start s' v e in
    rw (a, b) (with_block-Granted s size v p h r)

-- The test for free memory leaves out the size of the last block: in a valid list with a free
-- entry, whenever the last block's start plus the request fits the memory, the block is granted,
-- also where it ends behind the memory.
pub alloc_mem-beyond_memory :
    (s : Allocator) (size : ℕ)
    → IsValid s
    → s.mem_index < mem_list_size
    → top s + size < u32
    → (s.mem_list (s.mem_index - 1)).start_addr + size ≤ s.system_memory
    → s.system_memory < top s + size
    → (s' : Allocator) × (alloc_mem s size ≡ done (top s, s'))
      × (s'.system_memory < end_of (s'.mem_list s.mem_index))
alloc_mem-beyond_memory s size v room fits test over =
    (with_block s size, ground (arith, alloc_mem-cases s size v), ground arith)

-- A granted block ends at most the size of the block before it behind the memory.
pub alloc_mem_bound :
    (s : Allocator) (size start : ℕ) (s' : Allocator)
    → IsValid s
    → top s + size < u32
    → alloc_mem s size ≡ done (start, s')
    → start + size ≤ s.system_memory + (s.mem_list (s.mem_index - 1)).size
alloc_mem_bound s size start s' v fits e = ground (arith, alloc_mem-done s size start s' v e)

-- The list with only the null entry.
abbrev null_list : Allocator → Allocator
null_list s = record s { mem_list = update s.mem_list 0 (entry 0 0) }

null_list-IsValid : (s : Allocator) → s.mem_index ≡ 1 → IsValid (null_list s)
null_list-IsValid s one = record {
  null_start = refl;
  null_size = refl;
  positive = omega arith;
  bounded = omega arith;
  adjacent = λ i a. absurd (omega arith);
  non_empty = λ i a b. absurd (omega arith);
  top-lt = ground arith;
}

-- With room for the kernel, `initMem` leaves a valid list: the null entry and 3 MB from address 0.
pub init_mem-IsValid :
    (s : Allocator)
    → s.mem_index ≡ 1
    → 0x300000 ≤ s.system_memory
    → (s' : Allocator) × (init_mem s ≡ done s')
      × IsValid s'
      × (s'.mem_index ≡ 2)
      × ((s'.mem_list 1).start_addr ≡ 0)
      × (top s' ≡ 0x300000)
unfolding init_mem
init_mem-IsValid s one room =
    let v = null_list-IsValid s one in
    let none_yet : top (null_list s) ≡ 0 = ground arith in
    let g = with_block-Granted (null_list s) 0x300000 v (omega arith) (omega arith) (omega arith) in
    (
      with_block (null_list s) 0x300000,
      ground (arith, alloc_mem-cases (null_list s) 0x300000 v),
      g.valid,
      omega arith,
      ground (arith, g.block_start),
      ground arith,
    )
