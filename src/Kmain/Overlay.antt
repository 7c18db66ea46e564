-- ===== src/Kmain/Overlay.antt =====
-- The overlay of foki/kmain.c: a file of functions that run outside of the kernel. The function that is called is
-- an argument, by its address.
use acky.Base.{
  ap, ◌∙◌, refl, ◌<◌, ◌≤◌, ◌≡◌, true, arith, Bool-cases, inl, inr, Bool, ℕ, ◌+◌, ◌*◌, ◌^◌,
  if◌then◌else◌, ◌==◌, leb, add32, ◌&&◌, Option, none, some, List,
}
use acky.Ram.{Ram}
use acky.Loader.{copy_in}
use acky.Fs.{FileInfo, fs_get_file_info, fs_read_file}
use acky.Syscall.{System, Environment, ram_of, with_ram}
use acky.Syscall.Bytes.{word_at}

-- `memcmp(header->signature, "KFE1", 4) == 0`
abbrev pub is_kfe : (ℕ → ℕ) → Bool
is_kfe b = b 0 == b'K' && b 1 == b'F' && b 2 == b'E' && b 3 == b'1'

-- `header->loadAddr` of the array.
abbrev pub load_addr : (ℕ → ℕ) → ℕ
load_addr b = b 4 + b 5 * 2 ^ 8

-- The address of the overlay, or 0. Whether the file was found is not looked at.
unfoldable pub load_kfe : ℕ → Environment → (path : List ℕ) → System → Option (ℕ × System)
load_kfe fuel env path s =
    elim (fs_get_file_info fuel env.storage env.stale s.drives path env.stale_info) [
      | none ↦ none
      | some (_, info) ↦
          elim (fs_read_file fuel env.storage env.stale s.drives path env.stale.buffer info) [
            | none ↦ none
            | some (_, b, info') ↦ some (
                if is_kfe b
                then (load_addr b, with_ram s (copy_in (ram_of s) (load_addr b) b info'.size))
                else (0, s))
          ]
    ]

-- The argument runs the function at an address, and gives what it returns and the memory that it leaves.
unfoldable pub call_kfe_function : (function : ℕ → Ram → ℕ × Ram) → (index load : ℕ) → Ram → ℕ × Ram
call_kfe_function function index load m =
    if leb (m (add32 load 6)) index
    then (0, m)
    else function (word_at m (add32 load (7 + 2 * index))) m

-- The file of an overlay: the read array `b` of `size` bytes, that starts with the signature and whose copy
-- fits the address space.
pub record IsRead (fuel : ℕ) (env : Environment) (path : List ℕ) (s : System) (b : ℕ → ℕ) (size : ℕ)
    : Type 0 where
  pub ok : Bool
  pub ok' : Bool
  pub info : FileInfo
  pub info' : FileInfo
  pub found :
      fs_get_file_info fuel env.storage env.stale s.drives path env.stale_info ≡ some (ok, info)
  pub read :
      fs_read_file fuel env.storage env.stale s.drives path env.stale.buffer info
      ≡ some (ok', b, info')
  pub whole : info'.size ≡ size
  pub signature : is_kfe b ≡ true
  pub low_byte : b 4 < 2 ^ 8
  pub high_byte : b 5 < 2 ^ 8
  pub header : 7 ≤ size

-- When the file system reads an overlay, `loadKFE` loads it, and `callKFEFunction` then runs for each number below
-- that of its functions the function whose address stands in the table of the file, and no
-- function for any other number.
pub load_kfe-call :
    (fuel : ℕ) (env : Environment) (path : List ℕ) (s : System) (b : ℕ → ℕ) (size index : ℕ)
    (function : ℕ → Ram → ℕ × Ram)
    → IsRead fuel env path s b size
    → size < 2 ^ 31
    → 7 + 2 * b 6 ≤ size
    → (s' : System) × (load_kfe fuel env path s ≡ some (load_addr b, s'))
      × (call_kfe_function function index (load_addr b) (ram_of s') ≡ (
          if leb (b 6) index
          then (0, ram_of s')
          else function (b (7 + 2 * index) + b (8 + 2 * index) * 2 ^ 8) (ram_of s')))
unfolding load_kfe call_kfe_function
load_kfe-call fuel env path s b size index function f small table =
    let a = load_addr b in
    let m = copy_in (ram_of s) a b size in
    let low : a < 2 ^ 16 = omega (arith, f.low_byte, f.high_byte) in
    let at : (i : ℕ) → i < size → m (add32 a i) ≡ b i = λ i h. ground arith in
    let count = at 6 (omega (arith, f.header)) in
    let loaded : load_kfe fuel env path s ≡ some (a, with_ram s m) =
      rw (load_kfe, f.found, f.read, f.signature, f.whole) refl in
    let called : call_kfe_function function index a m ≡ (
        if leb (b 6) index
        then (0, m)
        else function (b (7 + 2 * index) + b (8 + 2 * index) * 2 ^ 8) m) =
      elim (Bool-cases (leb (b 6) index)) [
        | inl beyond ↦ rw (call_kfe_function, count, beyond) refl
        | inr listed ↦
            let here = at (7 + 2 * index) (ground arith) in
            let next : add32 (add32 a (7 + 2 * index)) 1 ≡ add32 a (8 + 2 * index) = ground arith in
            let above = ap m next ∙ at (8 + 2 * index) (ground arith) in
            rw (call_kfe_function, count, listed)
              (ap (λ (w : ℕ). function w m) (omega (arith, here, above)))
      ] in
    (with_ram s m, loaded, called)
