-- ===== src/Gdt/Tests.antt =====
-- Tests of the descriptors, and their theorems at concrete arguments.
use acky.Base.{ℕ, ◌≡◌, ◌≢◌, refl, arith, u32}
use acky.Gdt.{GdtDescriptor, Descriptors, Segments, set_ldt_entry, init_gdt}
use acky.Gdt.Decode.{
  base_of, limit_of, length_of, dpl_of, Describes, set_ldt_entry-Describes, init_gdt_segments,
}

abbrev no_descriptor : GdtDescriptor
no_descriptor = record {
  limit_low = 0;
  base_low = 0;
  base_middle = 0;
  access = 0;
  granularity = 0;
  base_high = 0;
}

abbrev blank : Descriptors
blank i = no_descriptor

abbrev unset : Segments
unset = record {
  gdt = blank;
  current_ldt = blank;
  gdtr_size = 0;
  gdtr_offset = 0;
  esp0 = 0;
  ss0 = 0;
}

user_data : set_ldt_entry blank 1 0x12345678 0xABCDE 0xF2 0xCF 1 ≡ record {
  limit_low = 0xBCDE;
  base_low = 0x5678;
  base_middle = 0x34;
  access = 0xF2;
  granularity = 0xCA;
  base_high = 0x12;
}
unfolding set_ldt_entry
user_data = refl

set_ldt_entry-Describes_example :
    Describes (set_ldt_entry blank 1 0x300000 0x4065 0xF2 0xCF 1) 0x300000 0x4065 0xF2 0xCF
    × ((j : ℕ) → j ≢ 1 → set_ldt_entry blank 1 0x300000 0x4065 0xF2 0xCF j ≡ blank j)
set_ldt_entry-Describes_example =
    set_ldt_entry-Describes blank 1 0x300000 0x4065 0xF2 0xCF (omega arith) (omega arith)

init_gdt_segments_example :
    let gdt = (init_gdt unset 0x21000 0x22000 0x23000 0x9000).gdt in
    ((base_of (gdt 1) ≡ 0) × (length_of (gdt 1) ≡ u32) × (dpl_of (gdt 1) ≡ 0))
    × ((base_of (gdt 2) ≡ 0) × (length_of (gdt 2) ≡ u32) × (dpl_of (gdt 2) ≡ 0))
    × ((base_of (gdt 3) ≡ 0x21000) × (limit_of (gdt 3) ≡ 15))
init_gdt_segments_example = init_gdt_segments unset 0x21000 0x22000 0x23000 0x9000 (omega arith)
