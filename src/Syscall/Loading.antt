-- ===== src/Syscall/Loading.antt =====
-- The call that loads a file, down to the blocks of the disk.
