-- ===== src/Syscall/Files.antt =====
-- The system calls on files.
use acky.Base.{ℕ, ◌+◌, ◌-◌, if◌then◌else◌, ◌||◌, leb, Option, none, some, List, [], ◌∷◌, ◌++◌}
use acky.Ram.{Ram}
use acky.Fs.{FileInfo, fs_read_file, fs_get_file_info}
use acky.Syscall.{
  System, Environment, Reply, sret_success, sret_error, ram_of, with_ram, is_invalid, user_address,
}
use acky.Syscall.Bytes.{text_in, store_bytes, dword_bytes, over}

-- The memory whose bytes from `a` on are those of a buffer.
abbrev pub with_buffer : Ram → ℕ → (ℕ → ℕ) → Ram
with_buffer m a out x = if leb a x then out (x - a) else m x

unfoldable pub sc_load_file : ℕ → Environment → (ebx ecx : ℕ) → System → Option Reply
sc_load_file fuel env ebx ecx s =
    let m = ram_of s in
    let buffer = user_address s ecx in
    if is_invalid s ebx || is_invalid s ecx
    then some (Reply.returned sret_error s)
    else elim (text_in fuel m (user_address s ebx)) [
      | none ↦ none
      | some path ↦
          elim (fs_read_file fuel env.storage env.stale s.drives path (λ k. m (buffer + k))
            env.stale_info) [
              | none ↦ none
              | some (ok, out, info) ↦ some (
                  Reply.returned (if ok then sret_success else sret_error)
                    (with_ram s (with_buffer m buffer out)))
            ]
    ]

-- `fileInfo`: the 32 bytes of the name, of which those behind the NUL are what the array held, the
-- size and the block.
abbrev pub file_info_bytes : List ℕ → FileInfo → List ℕ
file_info_bytes stale_name info =
    over (info.name ++ (0 ∷ [])) stale_name ++ (dword_bytes info.size ++ dword_bytes info.lba_loc)

unfoldable pub sc_get_file_info : ℕ → Environment → (ebx ecx : ℕ) → System → Option Reply
sc_get_file_info fuel env ebx ecx s =
    if is_invalid s ebx || is_invalid s ecx
    then some (Reply.returned sret_error s)
    else elim (text_in fuel (ram_of s) (user_address s ebx)) [
      | none ↦ none
      | some path ↦
          elim (fs_get_file_info fuel env.storage env.stale s.drives path env.stale_info) [
            | none ↦ none
            | some (ok, info) ↦ some (
                if ok
                then Reply.returned sret_success (
                    with_ram s (
                      store_bytes (ram_of s) (user_address s ecx)
                        (file_info_bytes env.stale_name info)))
                else Reply.returned sret_error s)
          ]
    ]
