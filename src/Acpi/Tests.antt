-- ===== src/Acpi/Tests.antt =====
-- Tests of the power management, and its theorem on a memory.
use acky.Base.{ℕ, ◌≡◌, ◌≢◌, ◌⊎◌, refl, if◌then◌else◌, ◌==◌, done, halted, Panic, none, add32, false}
use acky.Io.{PortWrite}
use acky.Ram.{Ram}
use acky.Acpi.{
  dword_at, Acpi, rsdp_size, sum_bytes, init_acpi, decode_pkg_length, find_s5, shutdown,
}
use acky.Acpi.Tables.{is_rsdt, is_xsdt, IsRsdp, Accepted, init_acpi-outcomes}

abbrev empty : Ram
empty a = 0

abbrev no_tables : Acpi
no_tables = record { rsdt = 0; fadt = 0; dsdt = 0 }

-- A length of two bytes: the low four bits in the first one, the others in the second.
two_bytes : decode_pkg_length (λ i. if i == 0 then 0x45 else 0x12) ≡ (2, 0x125)
unfolding decode_pkg_length
two_bytes = refl

-- The name of the package, its opcode and its length; the value is the byte behind.
abbrev aml : ℕ → ℕ
aml i =
    if i == 2
    then b'_'
    else if i == 3
    then b'S'
    else if i == 4
    then b'5'
    else if i == 5
    then b'_'
    else if i == 6
    then 0x12
    else if i == 7
    then 0x06
    else if i == 8
    then 0x04
    else 0

s5 : find_s5 aml 0 10 ≡ 4
unfolding find_s5 decode_pkg_length
s5 = refl

no_fadt : shutdown empty no_tables ≡ none
unfolding shutdown
no_fadt = refl

init_acpi-outcomes_example :
    ((init_acpi empty no_tables ≡ halted Panic.rsdp_not_found) × ((a : ℕ) → ¬ (IsRsdp empty a)))
    ⊎ ((a : ℕ) × IsRsdp empty a
        × (((sum_bytes empty a rsdp_size 0 ≢ 0)
              × (init_acpi empty no_tables ≡ halted Panic.rsdp_checksum))
            ⊎ ((sum_bytes empty a rsdp_size 0 ≡ 0)
                × (((is_rsdt empty (dword_at empty (add32 a 16)) ≡ false)
                      × (is_xsdt empty (dword_at empty (add32 a 16)) ≡ false)
                      × (init_acpi empty no_tables ≡ halted Panic.rsdt_signature))
                    ⊎ ((s' : Acpi) × (w : PortWrite) × (init_acpi empty no_tables ≡ done (s', w))
                        × Accepted empty a no_tables s')))))
init_acpi-outcomes_example = init_acpi-outcomes empty no_tables
