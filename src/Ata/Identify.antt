-- ===== src/Ata/Identify.antt =====
-- Finding the drives in foki/ata.c. What a drive answers is an argument: the bytes that its status port gives, in
-- order, and the words of its identification. The loops that wait have no bound in the source, so they
-- take fuel, and `none` means that they still run. The flag for interrupts is not kept.
use acky.Base.{
  ℕ, zero, suc, ◌+◌, ◌/◌, ◌%◌, if◌then◌else◌, ◌==◌, Option, none, some, Bool, true, false, not,
  ◌&&◌, List, ◌∷◌, text,
}
use acky.Io.{PortWrite, outb}
use acky.Serial.{Serial, serial_send_string, serial_send_int}
use acky.Ata.{Drives, primary}

pub record Device : Type 0 where
  pub status : ℕ → ℕ
  pub words : ℕ → ℕ

-- The globals of the module, with the serial port.
pub record Disks : Type 0 where
  pub drives : Drives
  pub primary_master_supports_lba48_mode : Bool
  pub primary_slave_supports_lba48_mode : Bool
  pub serial : Serial

-- `while ((inb(PRIMARY + 7) & 0x80));`, from the answer `i` on: the number of the next answer.
unfoldable pub busy_wait : ℕ → (ℕ → ℕ) → ℕ → Option ℕ
busy_wait zero status i = none
busy_wait (suc fuel) status i =
    let rest = busy_wait fuel status (i + 1) in
    if status i / 128 % 2 == 0 then some (i + 1) else rest

-- Sixteen answers are thrown away first.
unfoldable pub ata_wait : ℕ → (ℕ → ℕ) → ℕ → Option ℕ
ata_wait fuel status i = busy_wait fuel status (i + 16)

-- The error bit is read only when the data bit is set.
unfoldable pub ata_wait_ready : ℕ → (ℕ → ℕ) → ℕ → Option ℕ
ata_wait_ready zero status i = none
ata_wait_ready (suc fuel) status i =
    let requests = not (status i / 8 % 2 == 0) in
    let next = if requests then i + 2 else i + 1 in
    let rest = ata_wait_ready fuel status next in
    if requests && status (i + 1) % 2 == 0 then some next else rest

abbrev pub with_present : Bool → Bool → Disks → Disks
with_present master present d = record d {
  drives =
      if master
      then record d.drives { primary_master_present = present }
      else record d.drives { primary_slave_present = present };
}

abbrev pub with_text : List ℕ → Disks → Disks
with_text str d = record d { serial = serial_send_string str d.serial }

unfoldable pub not_found : Bool → Disks → Disks
not_found master d = with_present master false (
    with_text
      (if master
        then text "[ATA]: Master drive not found\n"
        else text "[ATA]: Slave drive not found\n")
      d)

unfoldable pub found : Bool → (ℕ → ℕ) → Disks → Disks
found master words d =
    let supports = not (words 83 / 0x400 % 2 == 0) in
    let d₁ = record d {
      primary_master_supports_lba48_mode =
          if master && supports then true else d.primary_master_supports_lba48_mode;
      primary_slave_supports_lba48_mode =
          if not master && supports then true else d.primary_slave_supports_lba48_mode;
    } in
    with_text
      (if master then text "[ATA]: Master drive found\n" else text "[ATA]: Slave drive found\n")
      (with_present master true d₁)

abbrev pub identify_command : Bool → List PortWrite → List PortWrite
identify_command master ports =
    outb (primary + 7) 0xEC
    ∷ outb (primary + 5) 0
    ∷ outb (primary + 4) 0
    ∷ outb (primary + 3) 0
    ∷ outb (primary + 2) 0
    ∷ outb (primary + 6) (if master then 0xA0 else 0xB0)
    ∷ ports

unfoldable pub ata_identify : ℕ → Bool → Device → Disks → Option Disks
unfolding not_found found
ata_identify fuel master dev d =
    let d₁ = record d {
      serial = record d.serial { ports = identify_command master d.serial.ports };
    } in
    if dev.status 0 == 0 then some (not_found master d₁) else elim (ata_wait fuel dev.status 1) [
      | none ↦ none
      | some i ↦ elim (ata_wait_ready fuel dev.status i) [
        | none ↦ none
        | some j ↦
            some (if dev.words 0 == 0 then not_found master d₁ else found master dev.words d₁)
      ]
    ]

abbrev pub bool_to_int : Bool → ℕ
bool_to_int b = if b then 1 else 0

-- The line that says how many drives there are.
unfoldable pub report_drives : Disks → Disks
report_drives d =
    let n =
      bool_to_int d.drives.primary_master_present + bool_to_int d.drives.primary_slave_present in
    with_text (if n == 1 then text " drive\n" else text " drives\n")
      (record d { serial = serial_send_int n (serial_send_string (text "[ATA]: Found ") d.serial) })

unfoldable pub ata_init : ℕ → (master slave : Device) → Disks → Option Disks
unfolding ata_identify report_drives
ata_init fuel master slave d = elim (ata_identify fuel true master d) [
  | none ↦ none
  | some d₁ ↦ elim (ata_identify fuel false slave d₁) [
    | none ↦ none
    | some d₂ ↦ some (report_drives d₂)
  ]
]
