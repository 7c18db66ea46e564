-- ===== src/Syscall/Bytes.antt =====
-- The structures that a system call reads from the memory and writes to it. An `int` of the kernel
-- and a `uint32_t` take four bytes, the lowest one first.
use acky.Base.{
  ℕ, zero, suc, ◌+◌, ◌*◌, ◌/◌, ◌%◌, ◌^◌, if◌then◌else◌, ◌==◌, update, add32, Option, none, some,
  List, [], ◌∷◌,
}
use acky.Ram.{Ram}
use acky.Acpi.{dword_at}
use acky.Process.{ProcMsg}
use acky.Graphics.{VbeReturn, PixelInfo}

abbrev pub word_at : Ram → ℕ → ℕ
word_at m a = m a + m (add32 a 1) * 2 ^ 8

-- The `n` bytes from `a` on.
unfoldable pub bytes_at : Ram → ℕ → ℕ → List ℕ
bytes_at m a zero = []
bytes_at m a (suc n) = m a ∷ bytes_at m (add32 a 1) n

unfoldable pub store_bytes : Ram → ℕ → List ℕ → Ram
store_bytes m a [] = m
store_bytes m a (b ∷ bs) = store_bytes (update m a b) (add32 a 1) bs

abbrev pub dword_bytes : ℕ → List ℕ
dword_bytes v = v % 2 ^ 8 ∷ v / 2 ^ 8 % 2 ^ 8 ∷ v / 2 ^ 16 % 2 ^ 8 ∷ v / 2 ^ 24 % 2 ^ 8 ∷ []

-- A text up to its NUL; a memory need not hold one, so it takes fuel.
unfoldable pub text_in : ℕ → Ram → ℕ → Option (List ℕ)
text_in zero m a = none
text_in (suc fuel) m a =
    let rest = text_in fuel m (add32 a 1) in
    if m a == 0 then some [] else elim rest [ none ↦ none | some cs ↦ some (m a ∷ cs) ]

-- The bytes that are written over the start of an array, and what the array held behind them.
unfoldable pub over : List ℕ → List ℕ → List ℕ
over [] old = old
over (b ∷ bs) [] = []
over (b ∷ bs) (c ∷ cs) = b ∷ over bs cs

-- `procMsg`.
abbrev pub proc_msg_at : Ram → ℕ → ProcMsg
proc_msg_at m a = record { from_pid = dword_at m a; msg = bytes_at m (add32 a 4) 50 }

-- `pixelInfo`, of 7 bytes.
abbrev pub pixel_info_at : Ram → ℕ → PixelInfo
pixel_info_at m a = record {
  r = m a;
  g = m (add32 a 1);
  b = m (add32 a 2);
  x = word_at m (add32 a 3);
  y = word_at m (add32 a 5);
}

abbrev pub pixel_info_bytes : PixelInfo → List ℕ
pixel_info_bytes p =
    p.r ∷ p.g ∷ p.b ∷ p.x % 2 ^ 8 ∷ p.x / 2 ^ 8 % 2 ^ 8 ∷ p.y % 2 ^ 8 ∷ p.y / 2 ^ 8 % 2 ^ 8 ∷ []

-- The fields of `vbeReturn` that the drawing reads, at their offsets.
abbrev pub vbe_return_at : Ram → ℕ → VbeReturn
vbe_return_at m a = record {
  pitch = word_at m (add32 a 16);
  bpp = m (add32 a 25);
  framebuffer = dword_at m (add32 a 40);
}
