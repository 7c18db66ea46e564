-- ===== src/Alloc/Tests.antt =====
-- Tests of the block list, and its theorems at concrete lists.
use acky.Base.{
  ℕ, ◌+◌, ◌%◌, ◌≤◌, ◌<◌, ◌≡◌, refl, arith, ◌==◌, if◌then◌else◌, inr, some, none, done, halted,
  update, Panic,
}
use acky.Ram.{memcpy}
use acky.Alloc.{MemEntry, entry, Allocator, alloc_mem, free_mem, init_mem}
use acky.Alloc.Inv.{IsValid, top, end_of}
use acky.Alloc.Grant.{
  Granted, alloc_mem-Granted, alloc_mem-beyond_memory, alloc_mem_bound, init_mem-IsValid,
}
use acky.Alloc.Release.{Released}
use acky.Alloc.Content.{
  free_mem-Released, free_mem-unknown, free_mem-IsValid, contents, old_index, free_mem-contents,
  free_mem-alloc_mem,
}

-- The null entry, the kernel's 3 MB, and blocks of 100 and 50 bytes.
abbrev blocks : ℕ → MemEntry
blocks i =
    if i == 0
    then entry 0 0
    else if i == 1
    then entry 0 0x300000
    else if i == 2
    then entry 0x300000 100
    else entry 0x300064 50

-- Every byte holds the low part of its address.
abbrev four : Allocator
four = record { ram = λ a. a % 256; mem_list = blocks; mem_index = 4; system_memory = 0x300100 }

four-IsValid : IsValid four
four-IsValid = record {
  null_start = refl;
  null_size = refl;
  positive = omega arith;
  bounded = omega arith;
  adjacent = λ i h. ground arith;
  non_empty = λ i p h. ground arith;
  top-lt = omega arith;
}

abbrev unset : Allocator
unset = record { ram = λ a. 0; mem_list = λ i. entry 7 7; mem_index = 1; system_memory = 0x1000000 }

abbrev five : Allocator
five = record four { mem_list = update blocks 4 (entry 0x300096 10); mem_index = 5 }

alloc_in_four : alloc_mem four 10 ≡ done (0x300096, five)
unfolding alloc_mem
alloc_in_four = refl

alloc_too_large : alloc_mem four 0x1000 ≡ halted Panic.out_of_memory
unfolding alloc_mem
alloc_too_large = refl

freed_moves : (free_mem four 0x300000).1.ram 0x300001 ≡ 0x65
unfolding free_mem memcpy
freed_moves = refl

freed_list : (free_mem four 0x300000).1.mem_list 2 ≡ entry 0x300000 50
unfolding free_mem
freed_list = refl

alloc_mem-Granted_example : Granted four 10 0x300096 five
alloc_mem-Granted_example =
    alloc_mem-Granted four 10 0x300096 five four-IsValid (omega arith) (omega arith) alloc_in_four

alloc_mem_bound_example : 0x300096 + 10 ≤ 0x300100 + 50
alloc_mem_bound_example =
    alloc_mem_bound four 10 0x300096 five four-IsValid (omega arith) alloc_in_four

-- 120 bytes are granted at 0x300096, behind the end of memory at 0x300100.
alloc_mem-beyond_memory_example :
    (s : Allocator) × (alloc_mem four 120 ≡ done (0x300096, s))
    × (s.system_memory < end_of (s.mem_list 4))
alloc_mem-beyond_memory_example =
    alloc_mem-beyond_memory four 120 four-IsValid (omega arith) (omega arith) (omega arith)
      (omega arith)

init_mem-IsValid_example :
    (s : Allocator) × (init_mem unset ≡ done s)
    × IsValid s
    × (s.mem_index ≡ 2)
    × ((s.mem_list 1).start_addr ≡ 0)
    × (top s ≡ 0x300000)
init_mem-IsValid_example = init_mem-IsValid unset refl (omega arith)

free_mem-Released_example :
    (s : Allocator) × (free_mem four 0x300000 ≡ (some 0x300000, s)) × Released four 2 s
free_mem-Released_example =
    free_mem-Released four 2 four-IsValid (omega arith) (omega arith) (omega arith)

free_mem-unknown_example : free_mem four 0x300001 ≡ (none, four)
free_mem-unknown_example = free_mem-unknown four 0x300001 (inr (λ i h. ground arith))

free_mem-IsValid_example : IsValid (free_mem four 0x300064).1
free_mem-IsValid_example = free_mem-IsValid four 0x300064 four-IsValid

free_mem-contents_example :
    (s : Allocator) × (free_mem four 0x300000 ≡ (some 0x300000, s))
    × (s.mem_index + 1 ≡ four.mem_index)
    × ((i off : ℕ)
        → i < s.mem_index
        → off < (s.mem_list i).size
        → ((s.mem_list i).size ≡ (four.mem_list (old_index 2 i)).size)
          × (contents s i off ≡ contents four (old_index 2 i) off))
free_mem-contents_example =
    free_mem-contents four 2 four-IsValid (omega arith) (omega arith) (omega arith)

free_mem-alloc_mem_example :
    (s : Allocator) × (free_mem five 0x300096 ≡ (some 0x300096, s))
    × (s.mem_index ≡ 4)
    × ((i : ℕ) → i < 4 → s.mem_list i ≡ blocks i)
    × ((a : ℕ) → a < 0x300096 → s.ram a ≡ a % 256)
free_mem-alloc_mem_example =
    free_mem-alloc_mem four 10 0x300096 five four-IsValid (omega arith) (omega arith) (omega arith)
      alloc_in_four
