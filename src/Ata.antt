-- ===== src/Ata.antt =====
-- Reading from a disk in foki/ata.c, and `commonRead` of foki/fs.c. The words that the disk hands over,
-- in order, are an argument. The loops that wait for the disk's status, and the serial messages, are
-- not kept: the disk is one that answers.
pub mod Tests
pub mod Sectors
pub mod Identify
pub mod Waits
pub mod Found
use acky.Base.{
  ℕ, zero, suc, ◌+◌, ◌*◌, ◌/◌, ◌%◌, ◌^◌, if◌then◌else◌, ◌==◌, update, mul32, Bool, true, false, not,
  ◌&&◌, List, [], ◌∷◌,
}
use acky.Io.{PortWrite, outb}

abbrev pub primary : ℕ
primary = 0x1F0

-- `primaryMasterPresent` and `primarySlavePresent`.
pub record Drives : Type 0 where
  pub primary_master_present : Bool
  pub primary_slave_present : Bool

unfoldable pub ata_disk_present : Drives → Bool → Bool
ata_disk_present d master = if master then d.primary_master_present else d.primary_slave_present

-- The bytes that `ataRead` sends, in order. `lba` has 64 bits and `sectorCount` 16.
unfoldable pub ata_command : Bool → ℕ → ℕ → List PortWrite
ata_command master lba sector_count =
    outb (primary + 6) (if master then 0x40 else 0x50)
    ∷ outb (primary + 2) (sector_count / 2 ^ 8)
    ∷ outb (primary + 3) (lba / 2 ^ 24)
    ∷ outb (primary + 4) (lba / 2 ^ 32)
    ∷ outb (primary + 5) (lba / 2 ^ 40)
    ∷ outb (primary + 2) sector_count
    ∷ outb (primary + 3) lba
    ∷ outb (primary + 4) (lba / 2 ^ 8)
    ∷ outb (primary + 5) (lba / 2 ^ 16)
    ∷ outb (primary + 7) 0x24
    ∷ []

-- `for (j = 0; j < 256; j++) buffer[i * 256 + j] = inw(PRIMARY);`, from `j` on.
unfoldable pub read_words : (ℕ → ℕ) → (ℕ → ℕ) → ℕ → ℕ → ℕ → ℕ → ℕ
read_words word buffer i j zero = buffer
read_words word buffer i j (suc left) =
    read_words word (update buffer (i * 256 + j) (word (i * 256 + j))) i (j + 1) left

-- The loop over the sectors, from `i` on; `count` is the number of words of a sector.
unfoldable pub read_sectors : (ℕ → ℕ) → (ℕ → ℕ) → ℕ → ℕ → ℕ → ℕ → ℕ
read_sectors word buffer i count zero = buffer
read_sectors word buffer i count (suc left) =
    read_sectors word (read_words word buffer i 0 count) (i + 1) count left

-- `ataRead`: the bytes sent and the buffer.
unfoldable pub ata_read : Drives → (ℕ → ℕ) → Bool → (ℕ → ℕ) → ℕ → ℕ → List PortWrite × (ℕ → ℕ)
ata_read d word master buffer lba sector_count =
    if ata_disk_present d master
    then (ata_command master lba sector_count, read_sectors word buffer 0 256 sector_count)
    else ([], buffer)

-- `commonRead`: blocks of four sectors. The product is one of 32 bits for the address and is cut to 16
-- bits for the count. Only the master (0) is read.
unfoldable pub common_read : Drives → (ℕ → ℕ) → ℕ → ℕ → ℕ → (ℕ → ℕ) → List PortWrite × (ℕ → ℕ)
common_read d word loc lba count buffer =
    if loc == 0
    then ata_read d word true buffer (mul32 lba 4) (mul32 count 4 % 2 ^ 16)
    else ([], buffer)
