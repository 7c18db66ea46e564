-- ===== src/Alloc/Release.antt =====
-- What `freeMem` does to the block list and to memory.
use acky.Base.{
  ℕ, suc, ◌+◌, ◌-◌, ◌≤◌, ◌<◌, ◌≡◌, refl, ◌⊎◌, arith, ◌==◌, inl, inr, Bool-cases, ltb, add32, sub32,
  shift_down, shift_down-below, shift_down-within, shift_down-last,
}
use acky.Ram.{memcpy}
use acky.Ram.Copy.{memcpy_lem, memcpy_frame}
use acky.Alloc.{MemEntry, lower, Allocator, release}
use acky.Alloc.Inv.{IsValid, Adjacent, NonEmpty, top, end_of, end-le-start, end-le-top}

-- What stays and what moves when block `k` goes.
pub record Released (s : Allocator) (k : ℕ) (s' : Allocator) : Type 0 where
  pub valid : IsValid s'
  pub shrunk : s'.mem_index ≡ s.mem_index - 1
  pub before : (i : ℕ) → i < k → s'.mem_list i ≡ s.mem_list i
  pub behind_start :
      (i : ℕ)
      → k ≤ i
      → i < s.mem_index - 1
      → (s'.mem_list i).start_addr + (s.mem_list k).size ≡ (s.mem_list (i + 1)).start_addr
  pub behind_size :
      (i : ℕ) → k ≤ i → i < s.mem_index - 1 → (s'.mem_list i).size ≡ (s.mem_list (i + 1)).size
  pub new_top : top s' + (s.mem_list k).size ≡ top s
  pub low : (a : ℕ) → a < (s.mem_list k).start_addr → s'.ram a ≡ s.ram a
  pub moved :
      (a : ℕ)
      → (s.mem_list k).start_addr ≤ a
      → a < top s'
      → s'.ram a ≡ s.ram (a + (s.mem_list k).size)
  pub high : (a : ℕ) → top s ≤ a → s'.ram a ≡ s.ram a
  pub same_memory : s'.system_memory ≡ s.system_memory

module _ (s : Allocator) (v : IsValid s) (k : ℕ) (pos : 0 < k) (used : k < s.mem_index) where
  abbrev block : MemEntry
  block = s.mem_list k

  abbrev rest : Allocator
  rest = release s block.start_addr k

  mem_list-before : (i : ℕ) → i < k → rest.mem_list i ≡ s.mem_list i
  unfolding release
  mem_list-before i h = shift_down-below (lower block.size) s.mem_list k (s.mem_index - 1 - k) i h

  -- No start behind the block wraps when the block's size is taken off.
  lower-behind :
      (i : ℕ)
      → k < i
      → i < s.mem_index
      → (lower block.size (s.mem_list i)).start_addr + block.size ≡ (s.mem_list i).start_addr
  lower-behind i a b =
      omega
        (arith, end-le-start s.mem_list s.mem_index k i v.adjacent a b, end-le-top v i b, v.top-lt)

  mem_list-behind :
      (i : ℕ)
      → k ≤ i
      → i < s.mem_index - 1
      → rest.mem_list i ≡ lower block.size (s.mem_list (i + 1))
  unfolding release
  mem_list-behind i a b =
      shift_down-within (lower block.size) s.mem_list k (s.mem_index - 1 - k) i a (omega arith)

  start-behind :
      (i : ℕ)
      → k ≤ i
      → i < s.mem_index - 1
      → (rest.mem_list i).start_addr + block.size ≡ (s.mem_list (i + 1)).start_addr
  start-behind i a b = rw (mem_list-behind i a b) (lower-behind (i + 1) (omega arith) (omega arith))

  size-behind :
      (i : ℕ) → k ≤ i → i < s.mem_index - 1 → (rest.mem_list i).size ≡ (s.mem_list (i + 1)).size
  size-behind i a b = rw (mem_list-behind i a b)

  -- The entry before the new end.
  rest-top : top rest + block.size ≡ top s
  unfolding release
  rest-top = elim (Bool-cases (s.mem_index == suc k)) [
    | inl last ↦
        let e : suc (k - 1) ≡ k = omega arith in
        ground (
          arith,
          mem_list-before (s.mem_index - 1 - 1),
          v.adjacent (k - 1),
          (λ (p : s.mem_index - 1 ≡ k). p),
        )
    | inr further ↦
        let e : s.mem_index - 1 - 1 + 1 ≡ s.mem_index - 1 = ground arith in
        ground (arith, start-behind (s.mem_index - 1 - 1), size-behind (s.mem_index - 1 - 1))
  ]

  -- The number of bytes that `freeMem` moves: it reads the entry at the new index, which is the
  -- block itself, or what the shift left of the last block.
  abbrev moved_bytes : ℕ
  moved_bytes =
      let stale =
        shift_down (lower block.size) s.mem_list k (s.mem_index - 1 - k) (s.mem_index - 1) in
      sub32 (add32 stale.start_addr stale.size) block.start_addr

  moved_bytes-last : suc k ≡ s.mem_index → moved_bytes ≡ block.size
  unfolding shift_down
  moved_bytes-last e =
      let none_left : s.mem_index - 1 - k ≡ 0 = omega arith in
      let at_block : s.mem_index - 1 ≡ k = omega arith in
      rw (none_left, at_block) (omega (arith, end-le-top v k used, v.top-lt))

  moved_bytes-further : suc k < s.mem_index → moved_bytes ≡ top s - end_of block
  moved_bytes-further h =
      let left : s.mem_index - 1 - k ≡ suc (s.mem_index - 1 - suc k) = omega arith in
      let here : k + suc (s.mem_index - 1 - suc k) ≡ s.mem_index - 1 = omega arith in
      let stale : shift_down (lower block.size) s.mem_list k (s.mem_index - 1 - k) (s.mem_index - 1)
          ≡ lower block.size (s.mem_list (s.mem_index - 1)) =
        ground (arith, shift_down-last (lower block.size) s.mem_list k (s.mem_index - 1 - suc k)) in
      rw stale (
        omega (
          arith,
          lower-behind (s.mem_index - 1) (omega arith) (omega arith),
          end-le-start s.mem_list s.mem_index k (s.mem_index - 1) v.adjacent (omega arith)
              (omega arith),
          v.top-lt,
        ))

  ram_lem : rest.ram ≡ memcpy s.ram block.start_addr (add32 block.start_addr block.size) moved_bytes
  unfolding release
  ram_lem = refl

  -- Where anything is moved, it is all that lies behind the block.
  moved_bytes-cases :
      (moved_bytes + end_of block ≡ top s)
      ⊎ ((top rest ≡ block.start_addr) × (moved_bytes ≡ block.size))
  moved_bytes-cases = elim (Bool-cases (s.mem_index == suc k)) [
    | inl last ↦
        let e : suc k ≡ s.mem_index = ground arith in
        let at_block : s.mem_index - 1 ≡ k = omega arith in
        inr (ground (arith, rest-top), moved_bytes-last e)
    | inr further ↦ inl (omega (arith, moved_bytes-further (ground arith), end-le-top v k used))
  ]

  ram-low : (a : ℕ) → a < block.start_addr → rest.ram a ≡ s.ram a
  ram-low a h = rw ram_lem (
      memcpy_frame s.ram block.start_addr (add32 block.start_addr block.size) moved_bytes a
        (omega (arith, moved_bytes-cases, end-le-top v k used, v.top-lt)) (inl h))

  ram-high : (a : ℕ) → top s ≤ a → rest.ram a ≡ s.ram a
  ram-high a h = rw ram_lem (
      memcpy_frame s.ram block.start_addr (add32 block.start_addr block.size) moved_bytes a
        (omega (arith, moved_bytes-cases, end-le-top v k used, v.top-lt))
        (inr (omega (arith, moved_bytes-cases, end-le-top v k used))))

  ram-moved : (a : ℕ) → block.start_addr ≤ a → a < top rest → rest.ram a ≡ s.ram (a + block.size)
  ram-moved a h below =
      let n : moved_bytes + end_of block ≡ top s = omega (arith, moved_bytes-cases) in
      let src : add32 block.start_addr block.size ≡ end_of block =
        omega (arith, end-le-top v k used, v.top-lt) in
      let at : end_of block + (a - block.start_addr) ≡ a + block.size = omega arith in
      rw (ram_lem, src)
        (ground (
          arith,
          rest-top,
          v.top-lt,
          memcpy_lem s.ram block.start_addr (end_of block) moved_bytes a,
        ))

  rest-mem_index : rest.mem_index ≡ s.mem_index - 1
  unfolding release
  rest-mem_index = refl

  rest-Adjacent : Adjacent rest.mem_list (s.mem_index - 1)
  rest-Adjacent i h = elim (Bool-cases (ltb i k)) [
    | inl below ↦ elim (Bool-cases (suc i == k)) [
      | inl meets ↦
          let e : suc i ≡ k = ground arith in
          ground (
            arith,
            mem_list-before i,
            start-behind k,
            v.adjacent i,
            v.adjacent k,
            size-behind k,
            (λ (p : k + 1 ≡ suc k). p),
          )
      | inr under ↦ ground (arith, mem_list-before i, mem_list-before (suc i), v.adjacent i)
    ]
    | inr above ↦
        let e : suc i + 1 ≡ suc (i + 1) = omega arith in
        ground (arith, start-behind i, start-behind (suc i), size-behind i, v.adjacent (i + 1))
  ]

  rest-NonEmpty : NonEmpty rest.mem_list (s.mem_index - 1)
  rest-NonEmpty i p h = elim (Bool-cases (ltb i k)) [
    | inl below ↦ ground (arith, mem_list-before i, v.non_empty i p)
    | inr above ↦ ground (arith, size-behind i, v.non_empty (i + 1))
  ]

  rest-IsValid : IsValid rest
  rest-IsValid = record {
    null_start = rw (mem_list-before 0 pos) v.null_start;
    null_size = rw (mem_list-before 0 pos) v.null_size;
    positive = omega (arith, rest-mem_index);
    bounded = omega (arith, rest-mem_index, v.bounded);
    adjacent = rw rest-mem_index rest-Adjacent;
    non_empty = rw rest-mem_index rest-NonEmpty;
    top-lt = omega (arith, rest-top, v.top-lt);
  }

  -- In a valid list, taking out any block but the null entry keeps the list valid, closes the gap
  -- in the list and in memory, and changes nothing below the block.
  pub release-Released : Released s k rest
  unfolding release
  release-Released = record {
    valid = rest-IsValid;
    shrunk = rest-mem_index;
    before = mem_list-before;
    behind_start = start-behind;
    behind_size = size-behind;
    new_top = rest-top;
    low = ram-low;
    moved = ram-moved;
    high = ram-high;
    same_memory = refl;
  }
