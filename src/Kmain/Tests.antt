-- ===== src/Kmain/Tests.antt =====
-- Tests of the start-up: blank disks, on which no program is found.
use acky.Base.{
  ◌^◌, leb, ◌==◌, ℕ, ◌+◌, ◌*◌, ◌≡◌, refl, arith, some, Bool, true, false, List, [], ◌∷◌, done,
  halted, Panic, if◌then◌else◌, ◌||◌, text,
}
use acky.Ata.{common_read, Drives, ata_disk_present, ata_read, read_sectors, read_words}
use acky.Ata.Tests.{drive, nothing, disks}
use acky.Fs.{
  iso9660_read, iso9660_get_file_info, walk, find_entry, get_name, read_blocks, final_name, Storage,
  FileInfo, DriveTable, find_letter, parse_partition_table, partition_from, init_fs,
  fs_get_file_info, fs_read_file, get_drive_index_from_letter,
}
use acky.Fs.Sample.{words, table, storage, stale, drive_a, no_info}
use acky.Kmain.Overlay.{load_addr, load_kfe, call_kfe_function, IsRead, load_kfe-call}
use acky.Syscall.{System, Environment, ram_of}
use acky.Syscall.Tests.{env, system}
use acky.World.{World}
use acky.World.Tests.{world}
use acky.Mouse.Tests.{mute}
use acky.Kmain.{MultibootInfo, Hardware, kmain}

abbrev blank : Drives → Storage
blank ata = record { ata = ata; disk = λ i. 0; slave_disk = λ i. 0 }

abbrev unmounted : DriveTable
unmounted = record { drives = λ i. drive_a; drive_count = 0 }

blank_fs :
    (m s : Bool)
    → init_fs
        (blank (record { primary_master_present = m; primary_slave_present = s }))
        stale
        unmounted
      ≡ (if m || s then done unmounted else halted Panic.no_drives)
unfolding init_fs ata_disk_present parse_partition_table partition_from ata_read read_sectors
    read_words
blank_fs false false = refl
blank_fs true false = refl
blank_fs false true = refl
blank_fs true true = refl

abbrev blank_env : Environment
blank_env = record env {
  storage = blank (record { primary_master_present = false; primary_slave_present = false });
}

-- The state in which the kernel is loaded.
abbrev loaded : World
loaded = record world {
  system = record system {
    drives = unmounted;
    kernel = record system.kernel {
      process_count = 0;
      memory = record system.kernel.memory { mem_index = 1 };
    };
  };
}

abbrev hardware : Hardware
hardware = record { echo = 0xAE; master = drive; slave = nothing; mouse = mute }

abbrev multiboot : MultibootInfo
multiboot = record {
  magic = 0x2BADB002;
  flags = 0x40;
  cmdline = text "/boot/kernel";
  mem_upper = 0x1F000;
  mods_count = 0;
}

no_multiboot :
    kmain 40 blank_env hardware disks (record multiboot { magic = 0 }) loaded
    ≡ some (halted Panic.invalid_magic)
unfolding kmain
no_multiboot = refl

-- The disk whose file `F` is an overlay of two functions, for address 0x9000.
abbrev overlay_words : ℕ → ℕ
overlay_words i =
    if i == 23552
    then b'K' + b'F' * 256
    else if i == 23553
    then b'E' + b'1' * 256
    else if i == 23554
    then 0x9000
    else if i == 23555
    then 2 + 0x34 * 256
    else if i == 23556
    then 0x90 + 0x78 * 256
    else if i == 23557
    then 0x90
    else words i

abbrev overlay_env : Environment
overlay_env = record env { storage = record storage { disk = overlay_words } }

abbrev overlay_info : FileInfo
overlay_info = record { name = b'F' ∷ b';' ∷ b'1' ∷ []; size = 2048; lba_loc = 23 }

abbrev overlay_path : List ℕ
overlay_path = text "A:/D/F"

overlay_found :
    fs_get_file_info 9 overlay_env.storage stale table overlay_path no_info
    ≡ some (true, overlay_info)
unfolding fs_get_file_info get_drive_index_from_letter find_letter iso9660_get_file_info walk
    find_entry get_name read_blocks common_read ata_read read_sectors read_words final_name
    ata_disk_present
overlay_found = refl

-- The block of the file.
abbrev overlay : ℕ → ℕ
overlay = read_blocks overlay_env.storage 0 23 1 stale.buffer

overlay_read :
    fs_read_file 9 overlay_env.storage stale table overlay_path stale.buffer overlay_info
    ≡ some (true, overlay, overlay_info)
unfolding fs_read_file iso9660_read fs_get_file_info get_drive_index_from_letter find_letter
    iso9660_get_file_info walk find_entry get_name read_blocks common_read ata_read read_sectors
    read_words final_name ata_disk_present
overlay_read = refl

overlay_cells :
    (overlay 0 ≡ b'K')
    × (overlay 1 ≡ b'F')
    × (overlay 2 ≡ b'E')
    × (overlay 3 ≡ b'1')
    × (overlay 4 ≡ 0)
    × (overlay 5 ≡ 0x90)
    × (overlay 6 ≡ 2)
unfolding read_blocks common_read ata_read read_sectors read_words ata_disk_present
overlay_cells = (refl, refl, refl, refl, refl, refl, refl)

overlay-IsRead : IsRead 9 overlay_env overlay_path system overlay 2048
overlay-IsRead =
    let (k, f, e, one, low, high, count) = overlay_cells in
    record {
      ok = true;
      ok' = true;
      info = overlay_info;
      info' = overlay_info;
      found = overlay_found;
      read = overlay_read;
      whole = refl;
      signature = rw (k, f, e, one) refl;
      low_byte = omega (arith, low);
      high_byte = omega (arith, high);
      header = omega arith;
    }

load_kfe-call_example :
    (s' : System) × (load_kfe 9 overlay_env overlay_path system ≡ some (load_addr overlay, s'))
    × (call_kfe_function (λ a m. (a, m)) 1 (load_addr overlay) (ram_of s') ≡ (
        if leb (overlay 6) 1 then (0, ram_of s') else (overlay 9 + overlay 10 * 2 ^ 8, ram_of s')))
load_kfe-call_example =
    load_kfe-call 9 overlay_env overlay_path system overlay 2048 1 (λ a m. (a, m)) overlay-IsRead
      (omega arith) (let (k, f, e, one, low, high, count) = overlay_cells in omega (arith, count))
