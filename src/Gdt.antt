-- ===== src/Gdt.antt =====
-- The segment descriptors of foki/gdt.c. `x & 0xFFFF` and the like are written as remainders, and
-- `x >> 16` as a quotient; the two nibbles of `granularity` are disjoint, so `|` is a sum.
mod Tests
pub mod Decode
use acky.Base.{ℕ, ◌+◌, ◌*◌, ◌/◌, ◌%◌, ◌^◌, if◌then◌else◌, ◌==◌, update}

-- `gdtDescriptor`; `granularity` holds the flags and the high nibble of the limit.
pub record GdtDescriptor : Type 0 where
  pub limit_low : ℕ
  pub base_low : ℕ
  pub base_middle : ℕ
  pub access : ℕ
  pub granularity : ℕ
  pub base_high : ℕ

abbrev pub Descriptors : Type 0
Descriptors = ℕ → GdtDescriptor

-- The assignments that `setGDTEntry` and `setLDTEntry` share.
unfoldable pub descriptor : ℕ → ℕ → ℕ → ℕ → GdtDescriptor
descriptor base limit access granularity = record {
  limit_low = limit % 2 ^ 16;
  base_low = base % 2 ^ 16;
  base_middle = base / 2 ^ 16 % 2 ^ 8;
  access = access;
  granularity = limit / 2 ^ 16 % 16 + granularity % 2 ^ 8 / 16 * 16;
  base_high = base / 2 ^ 24 % 2 ^ 8;
}

unfoldable pub set_gdt_entry : Descriptors → ℕ → ℕ → ℕ → ℕ → ℕ → Descriptors
unfolding descriptor
set_gdt_entry gdt index base limit access granularity =
    update gdt index (descriptor base limit access granularity)

unfoldable pub set_ldt_entry : Descriptors → ℕ → ℕ → ℕ → ℕ → ℕ → Descriptors
unfolding descriptor
set_ldt_entry current_ldt index base limit access granularity =
    update current_ldt index (descriptor base limit access granularity)

-- What `initGDT` sets up and hands to the processor: the two tables, the GDTR, and the fields of the
-- TSS that it writes.
pub record Segments : Type 0 where
  pub gdt : Descriptors
  pub current_ldt : Descriptors
  pub gdtr_size : ℕ
  pub gdtr_offset : ℕ
  pub esp0 : ℕ
  pub ss0 : ℕ

-- The arguments are the addresses of `currentLDT`, `realTSS` and `gdt`, and the value of EBP. The
-- sizes are those of two and seven descriptors of 8 bytes, and of the 104 bytes of the TSS.
unfoldable pub init_gdt : Segments → (ldt_addr tss_addr gdt_addr ebp : ℕ) → Segments
unfolding set_gdt_entry set_ldt_entry
init_gdt s ldt_addr tss_addr gdt_addr ebp =
    let l0 = set_ldt_entry s.current_ldt 0 0 0x1000 0xFA 0xCF in
    let l1 = set_ldt_entry l0 1 0 0x1000 0xF2 0xCF in
    let g0 = set_gdt_entry s.gdt 0 0 0 0 0 in
    let g1 = set_gdt_entry g0 1 0 0xFFFFF 0x9A 0xCF in
    let g2 = set_gdt_entry g1 2 0 0xFFFFF 0x92 0xCF in
    let g3 = set_gdt_entry g2 3 ldt_addr 15 0xE2 0xCF in
    let g5 = set_gdt_entry g3 5 0x300000 0xFFFFF 0xFA 0xCF in
    let g6 = set_gdt_entry g5 6 0x300000 0xFFFFF 0xF2 0xCF in
    let g4 = set_gdt_entry g6 4 tss_addr 103 0x89 0x00 in
    record {
      gdt = g4;
      current_ldt = l1;
      gdtr_size = 55;
      gdtr_offset = gdt_addr;
      esp0 = ebp;
      ss0 = 0x10;
    }
