-- ===== src/Gdt/Decode.antt =====
-- What the processor reads from a descriptor that the kernel wrote.
use acky.Base.{
  ℕ, ◌+◌, ◌*◌, ◌/◌, ◌%◌, ◌^◌, ◌<◌, ◌≡◌, ◌≢◌, refl, u32, arith, if◌then◌else◌, ◌==◌, true, false,
}
use acky.Gdt.{GdtDescriptor, Descriptors, descriptor, set_ldt_entry, Segments, init_gdt}

abbrev pub base_of : GdtDescriptor → ℕ
base_of d = d.base_low + d.base_middle * 2 ^ 16 + d.base_high * 2 ^ 24

abbrev pub limit_of : GdtDescriptor → ℕ
limit_of d = d.limit_low + d.granularity % 16 * 2 ^ 16

-- The number of bytes of the segment: with the granularity bit the limit counts pages of 4096.
abbrev pub length_of : GdtDescriptor → ℕ
length_of d = if d.granularity / 128 % 2 == 1 then (limit_of d + 1) * 4096 else limit_of d + 1

-- The ring that may use the segment.
abbrev pub dpl_of : GdtDescriptor → ℕ
dpl_of d = d.access / 32 % 4

-- What a written descriptor stands for.
pub record Describes (d : GdtDescriptor) (base limit access granularity : ℕ) : Type 0 where
  pub base_read : base_of d ≡ base
  pub limit_read : limit_of d ≡ limit % 2 ^ 20
  pub access_read : d.access ≡ access
  pub flags_read : d.granularity / 16 ≡ granularity / 16

descriptor-Describes :
    (base limit access granularity : ℕ)
    → base < u32
    → granularity < 256
    → Describes (descriptor base limit access granularity) base limit access granularity
unfolding descriptor
descriptor-Describes base limit access granularity hb hg = record {
  base_read = omega arith;
  limit_read = omega arith;
  access_read = refl;
  flags_read = omega arith;
}

-- `setLDTEntry` writes a descriptor that the processor reads back as the base, the low 20 bits of
-- the limit, the access byte and the flags that it was given, and leaves the other entries alone.
pub set_ldt_entry-Describes :
    (ldt : Descriptors) (index base limit access granularity : ℕ)
    → base < u32
    → granularity < 256
    → Describes
        (set_ldt_entry ldt index base limit access granularity index)
        base
        limit
        access
        granularity
      × ((j : ℕ) → j ≢ index → set_ldt_entry ldt index base limit access granularity j ≡ ldt j)
unfolding set_ldt_entry
set_ldt_entry-Describes ldt index base limit access granularity hb hg =
    let here : (index == index) ≡ true = ground arith in
    (
      rw here (descriptor-Describes base limit access granularity hb hg),
      λ j ne. let away : (index == j) ≡ false = ground arith in rw away,
    )

-- After `initGDT` the kernel's two segments span all 4 GB from address 0 for ring 0 alone, and entry
-- 3 describes the 16 bytes of `currentLDT`, which start where they lie.
pub init_gdt_segments :
    (s : Segments) (ldt_addr tss_addr gdt_addr ebp : ℕ)
    → ldt_addr < u32
    → let gdt = (init_gdt s ldt_addr tss_addr gdt_addr ebp).gdt in
      ((base_of (gdt 1) ≡ 0) × (length_of (gdt 1) ≡ u32) × (dpl_of (gdt 1) ≡ 0))
      × ((base_of (gdt 2) ≡ 0) × (length_of (gdt 2) ≡ u32) × (dpl_of (gdt 2) ≡ 0))
      × ((base_of (gdt 3) ≡ ldt_addr) × (limit_of (gdt 3) ≡ 15))
unfolding init_gdt
init_gdt_segments s ldt_addr tss_addr gdt_addr ebp h =
    ((refl, refl, refl), (refl, refl, refl), (omega arith, omega arith))
