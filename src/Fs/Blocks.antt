-- ===== src/Fs/Blocks.antt =====
-- The bytes of the master disk that a read of blocks brings in.
use acky.Base.{ℕ, ◌+◌, ◌*◌, ◌/◌, ◌%◌, ◌^◌, ◌<◌, ◌≡◌, arith, mul32, true}
use acky.Ata.Sectors.{common_read_lem}
use acky.Fs.{Storage, words_of, bytes_of, read_blocks}

-- Byte `a` of the master disk.
abbrev pub disk_byte : Storage → ℕ → ℕ
disk_byte st a = bytes_of st.disk a

-- A read of blocks from the master disk fills the array with the bytes of the disk from the block on.
pub read_blocks_lem :
    (st : Storage) (lba count : ℕ) (buffer : ℕ → ℕ) (k : ℕ)
    → st.ata.primary_master_present ≡ true
    → lba < 2 ^ 30
    → count < 2 ^ 14
    → k < count * 2048
    → read_blocks st 0 lba count buffer k ≡ disk_byte st (lba * 2048 + k)
unfolding read_blocks
read_blocks_lem st lba count buffer k present small few h =
    let word = λ (i : ℕ). st.disk (mul32 lba 4 * 256 + i) in
    let (_, _, filled) =
      common_read_lem st.ata word (words_of buffer) lba count (k / 2) present small few in
    let l : mul32 lba 4 ≡ lba * 4 = omega arith in
    let place : mul32 lba 4 * 256 + k / 2 ≡ (lba * 2048 + k) / 2 = omega (arith, l) in
    let parity : (lba * 2048 + k) % 2 ≡ k % 2 = omega arith in ground arith
