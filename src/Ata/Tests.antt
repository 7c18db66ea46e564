-- ===== src/Ata/Tests.antt =====
-- Tests of the disk reads, and their theorem at a concrete block.
use acky.Base.{
  ℕ, ◌+◌, ◌*◌, ◌≡◌, refl, arith, if◌then◌else◌, ltb, true, false, inl, inr, some, none, [],
}
use acky.Ata.Identify.{Device, Disks, ata_identify, ata_init}
use acky.Ata.Waits.{Settles}
use acky.Ata.Found.{ata_init-found, ata_identify-hangs}
use acky.Ata.{Drives, ata_disk_present, common_read, ata_command}
use acky.Ata.Sectors.{asked_lba, asked_count, common_read_lem}

abbrev one_disk : Drives
one_disk = record { primary_master_present = true; primary_slave_present = false }

abbrev empty : ℕ → ℕ
empty i = 0

abbrev stream : ℕ → ℕ
stream i = i + 1

asked_beyond_24_bits : asked_lba (ata_command true 0x123456789A 4) ≡ 0x123456789A
unfolding ata_command
asked_beyond_24_bits = refl

common_read_lem_example :
    let (ws, filled) = common_read one_disk stream 0 16 1 empty in
    (asked_lba ws ≡ 64)
    × (asked_count ws ≡ 4)
    × (filled 1000 ≡ (if ltb 1000 (1 * 1024) then stream 1000 else empty 1000))
common_read_lem_example =
    common_read_lem one_disk stream empty 16 1 1000 refl (omega arith) (omega arith)

-- A drive that is ready at once, and no drive.
abbrev pub drive : Device
drive = record { status = λ i. 0x58; words = λ i. 0x40 }

abbrev pub nothing : Device
nothing = record { status = λ i. 0; words = λ i. 0 }

abbrev pub disks : Disks
disks = record {
  drives = record { primary_master_present = false; primary_slave_present = false };
  primary_master_supports_lba48_mode = false;
  primary_slave_supports_lba48_mode = false;
  serial = record { faulty = true; ports = [] };
}

drive-Settles : Settles drive 0
drive-Settles = inr (λ k h. record { idle = refl; requests = refl; right = refl })

ata_init-found_example :
    (d' : Disks) × (ata_init 1 drive nothing disks ≡ some d')
    × (ata_disk_present d'.drives true ≡ true)
    × (ata_disk_present d'.drives false ≡ false)
ata_init-found_example =
    ata_init-found 1 0 drive nothing disks drive-Settles (inl refl) (omega arith)

-- Every answer is 255.
ata_identify-hangs_example :
    ata_identify 7 true (record { status = λ i. 0xFF; words = λ i. 0xFFFF }) disks ≡ none
ata_identify-hangs_example =
    ata_identify-hangs 7 true (record { status = λ i. 0xFF; words = λ i. 0xFFFF }) disks
      (inl (λ k. refl))
