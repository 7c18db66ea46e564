-- ===== src/Ata/Found.antt =====
-- Which drives `ataIdentify` and `ataInit` of foki/ata.c find, and when they wait for ever.
use acky.Base.{
  ℕ, zero, suc, ◌+◌, ◌/◌, ◌%◌, ◌<◌, ◌≡◌, ◌⊎◌, inl, inr, refl, arith, if◌then◌else◌, ◌==◌,
  Bool-cases, Option-cases, ◌∙◌, sym, none, some, Bool, true, false, not, ◌&&◌,
}
use acky.Ata.{ata_disk_present}
use acky.Ata.Identify.{
  Device, Disks, busy_wait, ata_wait, ata_wait_ready, not_found, found, ata_identify, report_drives,
  ata_init, identify_command,
}
use acky.Ata.Waits.{Settles, busy_wait_ends, ready_wait_ends}

-- The drive is there.
abbrev pub is_there : Device → Bool
is_there dev = not (dev.status 0 == 0) && not (dev.words 0 == 0)

drives_not_found :
    (master : Bool) (d : Disks)
    → (ata_disk_present (not_found master d).drives master ≡ false)
      × (ata_disk_present (not_found master d).drives (not master)
          ≡ ata_disk_present d.drives (not master))
unfolding not_found ata_disk_present
drives_not_found true d = (refl, refl)
drives_not_found false d = (refl, refl)

drives_found :
    (master : Bool) (words : ℕ → ℕ) (d : Disks)
    → (ata_disk_present (found master words d).drives master ≡ true)
      × (ata_disk_present (found master words d).drives (not master)
          ≡ ata_disk_present d.drives (not master))
unfolding found ata_disk_present
drives_found true words d = (refl, refl)
drives_found false words d = (refl, refl)

-- What one drive's identification leaves.
record Identified (master : Bool) (dev : Device) (d d' : Disks) : Type 0 where
  this : ata_disk_present d'.drives master ≡ is_there dev
  other : ata_disk_present d'.drives (not master) ≡ ata_disk_present d.drives (not master)

ata_identify-Identified :
    (fuel n : ℕ) (master : Bool) (dev : Device) (d : Disks)
    → Settles dev n
    → n < fuel
    → (d' : Disks) × (ata_identify fuel master dev d ≡ some d') × Identified master dev d d'
unfolding ata_identify ata_wait
ata_identify-Identified fuel n master dev d settles enough =
    let d₁ = record d {
      serial = record d.serial { ports = identify_command master d.serial.ports };
    } in
    let (absent, kept) = drives_not_found master d₁ in
    let (present, kept') = drives_found master dev.words d₁ in
    elim (Bool-cases (dev.status 0 == 0)) [
      | inl nothing ↦ (
        not_found master d₁,
        rw nothing refl,
        record {
          this = let no : is_there dev ≡ false = rw nothing refl in absent ∙ sym no;
          other = kept;
        },
      )
      | inr something ↦ elim settles [
        | inl none_there ↦ absurd (ground arith)
        | inr ready ↦
            let (i, waited, after) =
              busy_wait_ends fuel dev.status n 17 ready (omega (arith, enough))
                (omega (arith, enough)) in
            let (j, waited') =
              ready_wait_ends fuel dev.status n i ready (omega (arith, enough))
                (omega (arith, enough, after)) in
            elim (Bool-cases (dev.words 0 == 0)) [
              | inl blank ↦ (
                not_found master d₁,
                rw (something, waited, waited', blank) refl,
                record {
                  this =
                      let no : is_there dev ≡ false = rw (something, blank) refl in absent ∙ sym no;
                  other = kept;
                },
              )
              | inr words ↦ (
                found master dev.words d₁,
                rw (something, waited, waited', words) refl,
                record {
                  this =
                      let there : is_there dev ≡ true = rw (something, words) refl in
                      present ∙ sym there;
                  other = kept';
                },
              )
            ]
      ]
    ]

-- When each of the two drives is missing or becomes ready, `ataInit` comes to an end and finds those drives
-- that are there: whose status is not 0 and whose identification does not start with 0.
pub ata_init-found :
    (fuel n : ℕ) (master slave : Device) (d : Disks)
    → Settles master n
    → Settles slave n
    → n < fuel
    → (d' : Disks) × (ata_init fuel master slave d ≡ some d')
      × (ata_disk_present d'.drives true ≡ is_there master)
      × (ata_disk_present d'.drives false ≡ is_there slave)
unfolding ata_init report_drives
ata_init-found fuel n master slave d settles settles' enough =
    let (d₁, ran, one) = ata_identify-Identified fuel n true master d settles enough in
    let (d₂, ran', two) = ata_identify-Identified fuel n false slave d₁ settles' enough in
    (report_drives d₂, rw (ata_init, ran, ran') refl, two.other ∙ one.this, two.this)

busy_wait_hangs :
    (fuel : ℕ) (status : ℕ → ℕ) (i : ℕ)
    → ((k : ℕ) → status k / 128 % 2 ≡ 1)
    → busy_wait fuel status i ≡ none
unfolding busy_wait
busy_wait_hangs zero status i busy = refl
busy_wait_hangs (suc fuel) status i busy =
    let on : (status i / 128 % 2 == 0) ≡ false = ground (arith, busy i) in
    rw (on, busy_wait_hangs fuel status (i + 1) busy) refl

ready_wait_hangs :
    (fuel : ℕ) (status : ℕ → ℕ) (i : ℕ)
    → ((k : ℕ) → status k % 2 ≡ 1)
    → ata_wait_ready fuel status i ≡ none
unfolding ata_wait_ready
ready_wait_hangs zero status i wrong = refl
ready_wait_hangs (suc fuel) status i wrong =
    let next = if not (status i / 8 % 2 == 0) then i + 2 else i + 1 in
    let rest = ready_wait_hangs fuel status next wrong in
    let off : (not (status i / 8 % 2 == 0) && status (i + 1) % 2 == 0) ≡ false =
      ground (arith, wrong (i + 1)) in
    rw (off, rest) refl

-- When every answer says that the drive is busy, as those of a bus without a drive do that reads as 255, or
-- every answer reports an error, the identification never ends.
pub ata_identify-hangs :
    (fuel : ℕ) (master : Bool) (dev : Device) (d : Disks)
    → (((k : ℕ) → dev.status k / 128 % 2 ≡ 1) ⊎ ((k : ℕ) → dev.status k % 2 ≡ 1))
    → ata_identify fuel master dev d ≡ none
unfolding ata_identify ata_wait
ata_identify-hangs fuel master dev d (inl busy) =
    let there : (dev.status 0 == 0) ≡ false = ground (arith, busy 0) in
    rw (there, busy_wait_hangs fuel dev.status 17 busy) refl
ata_identify-hangs fuel master dev d (inr wrong) =
    let there : (dev.status 0 == 0) ≡ false = ground (arith, wrong 0) in
    elim (Option-cases (busy_wait fuel dev.status 17)) [
      | inl busy ↦ rw (there, busy) refl
      | inr (i, waited) ↦ rw (there, waited, ready_wait_hangs fuel dev.status i wrong) refl
    ]
