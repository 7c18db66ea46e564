-- ===== src/Acpi.antt =====
-- The power management of foki/acpi.c: the search for the tables of the firmware, the value that
-- turns the machine off, and the two ends of the machine. A table is the address it lies at; its
-- fields are read from the memory at the offsets of foki/acpi.h. The serial messages are not kept.
mod Tests
pub mod Tables
use acky.Base.{
  ℕ, zero, suc, ◌+◌, ◌-◌, ◌*◌, ◌/◌, ◌%◌, ◌^◌, if◌then◌else◌, ◌==◌, bit_or, add32, sub32, Option,
  none, some, Bool, true, ◌&&◌, not, List, [], ◌∷◌, Outcome, done, halted, Panic,
}
use acky.Io.{PortWrite, outb, outw}
use acky.Ram.{Ram}

-- `rsdt`, `fadt` and `dsdt`; 0 is the null pointer.
pub record Acpi : Type 0 where
  pub rsdt : ℕ
  pub fadt : ℕ
  pub dsdt : ℕ

abbrev pub dword_at : Ram → ℕ → ℕ
dword_at m a = m a + m (add32 a 1) * 2 ^ 8 + m (add32 a 2) * 2 ^ 16 + m (add32 a 3) * 2 ^ 24

-- `memcmp((void *)addr, text, length of text) == 0`
abbrev pub has_text : Ram → ℕ → List ℕ → Bool
has_text m a [] = true
has_text m a (c ∷ cs) = m a == c && has_text m (add32 a 1) cs

-- `for (i = 1; i <= byteCount; i++) length |= (uint32_t)ptr[i] << (4 + (8 * (i - 1)));`, from `i` on.
abbrev pub pkg_bytes : (ℕ → ℕ) → (i left length : ℕ) → ℕ
pkg_bytes ptr i zero length = length
pkg_bytes ptr i (suc left) length =
    pkg_bytes ptr (i + 1) left (bit_or length (ptr i * 2 ^ (4 + 8 * (i - 1))))

-- The returned number of bytes, and the length.
unfoldable pub decode_pkg_length : (ℕ → ℕ) → ℕ × ℕ
decode_pkg_length ptr =
    let byte_count = ptr 0 / 2 ^ 6 % 4 in
    (byte_count + 1, pkg_bytes ptr 1 byte_count (ptr 0 % 2 ^ 6))

-- The loop of `getSLP_TYPa`, from `i` on.
unfoldable pub find_s5 : (ℕ → ℕ) → (i left : ℕ) → ℕ
find_s5 aml i zero = 0
find_s5 aml i (suc left) =
    let rest = find_s5 aml (i + 1) left in
    if aml i == b'_'
      && aml (i + 1) == b'S'
      && aml (i + 2) == b'5'
      && aml (i + 3) == b'_'
      && aml (i + 4) == 0x12
    then aml (i + 5 + (decode_pkg_length (λ k. aml (i + 5 + k))).0)
    else rest

abbrev pub header_size : ℕ
header_size = 36

unfoldable pub get_slp_typa : Ram → (dsdt : ℕ) → ℕ
get_slp_typa m dsdt =
    if dsdt == 0
    then 0
    else find_s5 (λ k. m (add32 dsdt (header_size + k))) 0 (sub32 (dword_at m (add32 dsdt 4)) 6)

-- The two loops over addresses, from `addr` on.
unfoldable pub find_rsdp : Ram → (addr left : ℕ) → Option ℕ
find_rsdp m addr zero = none
find_rsdp m addr (suc left) =
    let rest = find_rsdp m (addr + 1) left in
    if has_text m addr (b'R' ∷ b'S' ∷ b'D' ∷ 32 ∷ b'P' ∷ b'T' ∷ b'R' ∷ 32 ∷ [])
    then some addr
    else rest

abbrev pub rsdp_size : ℕ
rsdp_size = 20

-- `sum += bytes[i]`, a sum of 8 bits, from `i` on.
abbrev pub sum_bytes : Ram → (a left sum : ℕ) → ℕ
sum_bytes m a zero sum = sum
sum_bytes m a (suc left) sum = sum_bytes m (add32 a 1) left ((sum + m a) % 2 ^ 8)

-- The table with the signature `FACP` among the entries of the RSDT, from `i` on.
unfoldable pub find_fadt : Ram → (rsdt i left : ℕ) → Option ℕ
find_fadt m rsdt i zero = none
find_fadt m rsdt i (suc left) =
    let rest = find_fadt m rsdt (i + 1) left in
    let h = dword_at m (add32 rsdt (header_size + 4 * i)) in
    if has_text m h (b'F' ∷ b'A' ∷ b'C' ∷ b'P' ∷ []) then some h else rest

-- Where `initACPI` looks for the RSDP: the 1 KiB of the EBDA, and the area of the firmware.
unfoldable pub rsdp_address : Ram → Option ℕ
unfolding find_rsdp
rsdp_address m = elim (find_rsdp m ((m 0x40E + m 0x40F * 2 ^ 8) * 2 ^ 4) 1024) [
  | some a ↦ some a
  | none ↦ find_rsdp m 0xE0000 (0xFFFFF - 0xE0000)
]

unfoldable pub use_rsdt : Ram → Acpi → (rsdt : ℕ) → Outcome (Acpi × PortWrite)
use_rsdt m s rsdt =
    if not (has_text m rsdt (b'R' ∷ b'S' ∷ b'D' ∷ b'T' ∷ []))
      && not (has_text m rsdt (b'X' ∷ b'S' ∷ b'D' ∷ b'T' ∷ []))
    then halted Panic.rsdt_signature
    else (let found = find_fadt m rsdt 0 (sub32 (dword_at m (add32 rsdt 4)) header_size / 4) in
        let s' : Acpi = elim found [
          | none ↦ record s { rsdt = rsdt }
          | some h ↦ record { rsdt = rsdt; fadt = h; dsdt = dword_at m (add32 h 40) }
        ] in
        done (s', outb (dword_at m (add32 s'.fadt 48)) (m (add32 s'.fadt 52))))

unfoldable pub init_acpi : Ram → Acpi → Outcome (Acpi × PortWrite)
init_acpi m s = elim (rsdp_address m) [
  | none ↦ halted Panic.rsdp_not_found
  | some a ↦
      if sum_bytes m a rsdp_size 0 == 0
      then use_rsdt m s (dword_at m (add32 a 16))
      else halted Panic.rsdp_checksum
]

-- `none` is the return without a FADT; otherwise the machine stays in a loop after the write.
unfoldable pub shutdown : Ram → Acpi → Option PortWrite
shutdown m s =
    if s.fadt == 0
    then none
    else some (outw (dword_at m (add32 s.fadt 64)) (bit_or (get_slp_typa m s.dsdt) 0x2000))

-- The wait for the keyboard controller, whose status bytes are an argument; it has no bound in the
-- source, so it takes fuel. The machine halts after the write.
unfoldable pub reboot : ℕ → (status : ℕ → ℕ) → Option PortWrite
reboot zero status = none
reboot (suc fuel) status =
    let rest = reboot fuel (λ k. status (k + 1)) in
    if status 0 / 2 % 2 == 0 then some (outb 0x64 0xFE) else rest
