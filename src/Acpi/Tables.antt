-- ===== src/Acpi/Tables.antt =====
-- Which tables the search of `initACPI` accepts.
use acky.Base.{
  Bool, ℕ, zero, suc, ◌+◌, ◌-◌, ◌*◌, ◌/◌, ◌^◌, ◌<◌, ◌≤◌, ◌≡◌, ◌≢◌, ◌⊎◌, inl, inr, refl, arith, true,
  false, Bool-cases, Option-cases, some, none, not, ◌&&◌, ◌==◌, add32, sub32, sym, List, [], ◌∷◌,
  done, halted, Panic,
}
use acky.Io.{PortWrite, outb}
use acky.Ram.{Ram}
use acky.Acpi.{
  Acpi, dword_at, has_text, find_rsdp, rsdp_address, rsdp_size, sum_bytes, find_fadt, use_rsdt,
  init_acpi, header_size,
}

abbrev rsdp_text : List ℕ
rsdp_text = b'R' ∷ b'S' ∷ b'D' ∷ 32 ∷ b'P' ∷ b'T' ∷ b'R' ∷ 32 ∷ []

find_rsdp-some :
    (m : Ram) (addr left a : ℕ)
    → find_rsdp m addr left ≡ some a
    → (has_text m a rsdp_text ≡ true) × (addr ≤ a) × (a < addr + left)
unfolding find_rsdp
find_rsdp-some m addr zero a h = absurd (ground (arith, h))
find_rsdp-some m addr (suc left) a h = elim (Bool-cases (has_text m addr rsdp_text)) [
  | inl hit ↦ (ground arith, ground arith, ground arith)
  | inr miss ↦
      let (signed, from, to) = find_rsdp-some m (addr + 1) left a (ground arith) in
      (signed, omega (arith, from), omega (arith, to))
]

find_rsdp-none :
    (m : Ram) (addr left a : ℕ)
    → find_rsdp m addr left ≡ none
    → addr ≤ a
    → a < addr + left
    → has_text m a rsdp_text ≡ false
unfolding find_rsdp
find_rsdp-none m addr zero a h from to = absurd (omega arith)
find_rsdp-none m addr (suc left) a h from to = elim (Bool-cases (has_text m addr rsdp_text)) [
  | inl hit ↦ absurd (ground arith)
  | inr miss ↦ elim (Bool-cases (addr == a)) [
    | inl here ↦ let e : addr ≡ a = ground arith in rw (← e) miss
    | inr later ↦
        find_rsdp-none m (addr + 1) left a (ground arith) (ground arith) (omega (arith, to))
  ]
]

-- The table that entry `i` of the RSDT points to.
abbrev pub table_at : Ram → (rsdt i : ℕ) → ℕ
table_at m rsdt i = dword_at m (add32 rsdt (header_size + 4 * i))

abbrev pub facp : List ℕ
facp = b'F' ∷ b'A' ∷ b'C' ∷ b'P' ∷ []

find_fadt-some :
    (m : Ram) (rsdt i left h : ℕ)
    → find_fadt m rsdt i left ≡ some h
    → (k : ℕ) × (k < i + left) × (h ≡ table_at m rsdt k) × (has_text m h facp ≡ true)
unfolding find_fadt
find_fadt-some m rsdt i zero h e = absurd (ground (arith, e))
find_fadt-some m rsdt i (suc left) h e =
    let t = table_at m rsdt i in
    elim (Bool-cases (has_text m t facp)) [
      | inl hit ↦ let same : t ≡ h = ground arith in (i, omega arith, sym same, rw (← same) hit)
      | inr miss ↦
          let (k, below, at, signed) = find_fadt-some m rsdt (i + 1) left h (ground arith) in
          (k, omega (arith, below), at, signed)
    ]

find_fadt-none :
    (m : Ram) (rsdt i left k : ℕ)
    → find_fadt m rsdt i left ≡ none
    → i ≤ k
    → k < i + left
    → has_text m (table_at m rsdt k) facp ≡ false
unfolding find_fadt
find_fadt-none m rsdt i zero k e from to = absurd (omega arith)
find_fadt-none m rsdt i (suc left) k e from to =
    elim (Bool-cases (has_text m (table_at m rsdt i) facp)) [
      | inl hit ↦ absurd (ground arith)
      | inr miss ↦ elim (Bool-cases (i == k)) [
        | inl here ↦ let same : i ≡ k = ground arith in rw (← same) miss
        | inr later ↦
            find_fadt-none m rsdt (i + 1) left k (ground arith) (ground arith) (omega (arith, to))
      ]
    ]

-- The start of the EBDA, from the word of the BIOS at 0x40E.
abbrev pub ebda : Ram → ℕ
ebda m = (m 0x40E + m 0x40F * 2 ^ 8) * 2 ^ 4

-- The address lies where the RSDP is looked for, and has its signature.
pub record IsRsdp (m : Ram) (a : ℕ) : Type 0 where
  pub signed : has_text m a rsdp_text ≡ true
  pub area : ((ebda m ≤ a) × (a < ebda m + 1024)) ⊎ ((0xE0000 ≤ a) × (a < 0xFFFFF))

rsdp_address-cases :
    (m : Ram)
    → ((rsdp_address m ≡ none) × ((a : ℕ) → ¬ (IsRsdp m a)))
      ⊎ ((a : ℕ) × (rsdp_address m ≡ some a) × IsRsdp m a)
unfolding rsdp_address
rsdp_address-cases m = elim (Option-cases (find_rsdp m (ebda m) 1024)) [
  | inr (a, found) ↦
      let (signed, from, to) = find_rsdp-some m (ebda m) 1024 a found in
      inr (a, rw (rsdp_address, found) refl, record { signed = signed; area = inl (from, to) })
  | inl missed ↦ elim (Option-cases (find_rsdp m 0xE0000 (0xFFFFF - 0xE0000))) [
    | inr (a, found) ↦
        let (signed, from, to) = find_rsdp-some m 0xE0000 (0xFFFFF - 0xE0000) a found in
        inr (
          a,
          rw (rsdp_address, missed, found) refl,
          record { signed = signed; area = inr (from, omega (arith, to)) },
        )
    | inl gone ↦ inl (
      rw (rsdp_address, missed, gone) refl,
      λ a r. elim r.area [
        | inl (from, to) ↦
            let no = find_rsdp-none m (ebda m) 1024 a missed from to in
            let yes = r.signed in absurd (ground arith)
        | inr (from, to) ↦
            let no = find_rsdp-none m 0xE0000 (0xFFFFF - 0xE0000) a gone from (omega (arith, to)) in
            let yes = r.signed in absurd (ground arith)
      ],
    )
  ]
]

is_zero : (n : ℕ) → (n == 0) ≡ true → n ≡ 0
is_zero n h = ground arith

not_zero : (n : ℕ) → (n == 0) ≡ false → n ≢ 0
not_zero n h = ground arith

-- The number of the entries of the RSDT.
abbrev pub entries : Ram → (rsdt : ℕ) → ℕ
entries m rsdt = sub32 (dword_at m (add32 rsdt 4)) header_size / 4

abbrev pub is_rsdt : Ram → ℕ → Bool
is_rsdt m a = has_text m a (b'R' ∷ b'S' ∷ b'D' ∷ b'T' ∷ [])

abbrev pub is_xsdt : Ram → ℕ → Bool
is_xsdt m a = has_text m a (b'X' ∷ b'S' ∷ b'D' ∷ b'T' ∷ [])

-- What the code has read of the tables when it returns: without a FADT among the entries, that and the DSDT are as
-- before.
pub record Accepted (m : Ram) (a : ℕ) (s s' : Acpi) : Type 0 where
  pub rsdt : s'.rsdt ≡ dword_at m (add32 a 16)
  pub named : (is_rsdt m s'.rsdt ≡ true) ⊎ (is_xsdt m s'.rsdt ≡ true)
  pub fadt :
      ((s'.fadt ≡ s.fadt)
        × (s'.dsdt ≡ s.dsdt)
        × ((k : ℕ) → k < entries m s'.rsdt → has_text m (table_at m s'.rsdt k) facp ≡ false))
      ⊎ ((has_text m s'.fadt facp ≡ true)
          × ((k : ℕ) × (k < entries m s'.rsdt) × (s'.fadt ≡ table_at m s'.rsdt k))
          × (s'.dsdt ≡ dword_at m (add32 s'.fadt 40)))

enabling : Ram → (fadt : ℕ) → PortWrite
enabling m fadt = outb (dword_at m (add32 fadt 48)) (m (add32 fadt 52))

use_rsdt-cases :
    (m : Ram) (s : Acpi) (a : ℕ)
    → ((is_rsdt m (dword_at m (add32 a 16)) ≡ false)
        × (is_xsdt m (dword_at m (add32 a 16)) ≡ false)
        × (use_rsdt m s (dword_at m (add32 a 16)) ≡ halted Panic.rsdt_signature))
      ⊎ ((s' : Acpi) × (w : PortWrite) × (use_rsdt m s (dword_at m (add32 a 16)) ≡ done (s', w))
          × Accepted m a s s')
unfolding use_rsdt enabling
use_rsdt-cases m s a =
    let rsdt = dword_at m (add32 a 16) in
    let left = entries m rsdt in
    elim (Bool-cases (not (is_rsdt m rsdt) && not (is_xsdt m rsdt))) [
      | inl other ↦
          let no_r : is_rsdt m rsdt ≡ false = ground arith in
          let no_x : is_xsdt m rsdt ≡ false = ground arith in
          inl (no_r, no_x, rw (use_rsdt, other) refl)
      | inr known ↦
          let named : (is_rsdt m rsdt ≡ true) ⊎ (is_xsdt m rsdt ≡ true) = ground arith in
          elim (Option-cases (find_fadt m rsdt 0 left)) [
            | inl missing ↦ inr (
              record s { rsdt = rsdt },
              enabling m s.fadt,
              rw (use_rsdt, known, missing) refl,
              record {
                rsdt = refl;
                named = named;
                fadt = inl (
                  refl,
                  refl,
                  λ k h. find_fadt-none m rsdt 0 left k missing (omega arith) (omega (arith, h)),
                );
              },
            )
            | inr (h, found) ↦
                let (k, below, at, signed) = find_fadt-some m rsdt 0 left h found in
                inr (
                  record { rsdt = rsdt; fadt = h; dsdt = dword_at m (add32 h 40) },
                  enabling m h,
                  rw (use_rsdt, known, found) refl,
                  record {
                    rsdt = refl;
                    named = named;
                    fadt = inr (signed, (k, omega (arith, below), at), refl);
                  },
                )
          ]
    ]

-- `initACPI` always comes to an end, in one of four ways: it halts because no address of the two areas has
-- the signature of the RSDP; or one has it, and it halts because the 20 bytes there do not add
-- up to 0, or because the table they point to has neither of the two signatures; or it returns with
-- that table, which has one of them, and with a FADT that is one of its entries and has its signature, or,
-- if no entry has it, with the FADT that it had before.
pub init_acpi-outcomes :
    (m : Ram) (s : Acpi)
    → ((init_acpi m s ≡ halted Panic.rsdp_not_found) × ((a : ℕ) → ¬ (IsRsdp m a)))
      ⊎ ((a : ℕ) × IsRsdp m a
          × (((sum_bytes m a rsdp_size 0 ≢ 0) × (init_acpi m s ≡ halted Panic.rsdp_checksum))
              ⊎ ((sum_bytes m a rsdp_size 0 ≡ 0)
                  × (((is_rsdt m (dword_at m (add32 a 16)) ≡ false)
                        × (is_xsdt m (dword_at m (add32 a 16)) ≡ false)
                        × (init_acpi m s ≡ halted Panic.rsdt_signature))
                      ⊎ ((s' : Acpi) × (w : PortWrite) × (init_acpi m s ≡ done (s', w))
                          × Accepted m a s s')))))
unfolding init_acpi
init_acpi-outcomes m s = elim (rsdp_address-cases m) [
  | inl (missing, nowhere) ↦ inl (rw (init_acpi, missing) refl, nowhere)
  | inr (a, found, is) ↦
      let sum = sum_bytes m a rsdp_size 0 in
      inr (
        a,
        is,
        elim (Bool-cases (sum == 0)) [
          | inr wrong ↦ inl (not_zero sum wrong, rw (init_acpi, found, wrong) refl)
          | inl right ↦
              let zero_sum : sum ≡ 0 = is_zero sum right in
              elim (use_rsdt-cases m s a) [
                | inl (no_r, no_x, other) ↦
                    inr (zero_sum, inl (no_r, no_x, rw (init_acpi, found, right, other) refl))
                | inr (s', w, run, ok) ↦
                    inr (zero_sum, inr (s', w, rw (init_acpi, found, right, run) refl, ok))
              ]
        ],
      )
]
