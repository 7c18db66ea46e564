-- ===== src/Ata/Sectors.antt =====
-- What the disk is asked for and what the buffer holds afterwards.
use acky.Base.{
  ℕ, zero, suc, ◌+◌, ◌*◌, ◌%◌, ◌^◌, ◌<◌, ◌≡◌, arith, if◌then◌else◌, ◌==◌, ltb, leb, update, mul32,
  true, List, [], ◌∷◌, ◌&&◌,
}
use acky.Io.{PortWrite}
use acky.Ata.{
  primary, Drives, ata_disk_present, ata_command, read_words, read_sectors, ata_read, common_read,
}

read_words_lem :
    (word buffer : ℕ → ℕ) (i j left k : ℕ)
    → read_words word buffer i j left k
      ≡ (if leb (i * 256 + j) k && ltb k (i * 256 + j + left) then word k else buffer k)
unfolding read_words
read_words_lem word buffer i j zero k = ground arith
read_words_lem word buffer i j (suc left) k =
    ground (
      arith,
      read_words_lem word (update buffer (i * 256 + j) (word (i * 256 + j))) i (j + 1) left k,
    )

read_sectors_lem :
    (word buffer : ℕ → ℕ) (i left k : ℕ)
    → read_sectors word buffer i 256 left k
      ≡ (if leb (i * 256) k && ltb k ((i + left) * 256) then word k else buffer k)
unfolding read_sectors
read_sectors_lem word buffer i zero k = ground arith
read_sectors_lem word buffer i (suc left) k = ground (
  arith,
  read_sectors_lem word (read_words word buffer i 0 256) (i + 1) left k,
  read_words_lem word buffer i 0 256 k,
)

-- The last value that was sent to a port, and the one before it: the disk's registers keep two.
abbrev pub sent : List PortWrite → ℕ → ℕ × ℕ → ℕ × ℕ
sent [] port kept = kept
sent (w ∷ ws) port (before, last) =
    sent ws port (if w.port == port then (last, w.value) else (before, last))

-- The number that the disk puts together from its registers: the values sent last are the low bytes.
abbrev pub asked_lba : List PortWrite → ℕ
asked_lba ws =
    let (a3, a0) = sent ws (primary + 3) (0, 0) in
    let (a4, a1) = sent ws (primary + 4) (0, 0) in
    let (a5, a2) = sent ws (primary + 5) (0, 0) in
    a0 + a1 * 2 ^ 8 + a2 * 2 ^ 16 + a3 * 2 ^ 24 + a4 * 2 ^ 32 + a5 * 2 ^ 40

abbrev pub asked_count : List PortWrite → ℕ
asked_count ws = let (high, low) = sent ws (primary + 2) (0, 0) in low + high * 2 ^ 8

-- `commonRead` of blocks from the master asks the disk for exactly the sectors of the blocks, and then
-- the buffer holds the words that the disk hands over and beside them what it held before. The block
-- number has at most 30 bits, and the blocks are fewer than 16384.
pub common_read_lem :
    (d : Drives) (word buffer : ℕ → ℕ) (lba count k : ℕ)
    → d.primary_master_present ≡ true
    → lba < 2 ^ 30
    → count < 2 ^ 14
    → let (ws, filled) = common_read d word 0 lba count buffer in
      (asked_lba ws ≡ lba * 4)
      × (asked_count ws ≡ count * 4)
      × (filled k ≡ (if ltb k (count * 1024) then word k else buffer k))
unfolding common_read ata_read ata_command ata_disk_present
common_read_lem d word buffer lba count k present small few =
    let l : mul32 lba 4 ≡ lba * 4 = omega arith in
    let c : mul32 count 4 % 2 ^ 16 ≡ count * 4 = omega arith in
    rw (l, c, present)
      (omega arith, omega arith, ground (arith, read_sectors_lem word buffer 0 (count * 4) k))
