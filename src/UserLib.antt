-- ===== src/UserLib.antt =====
-- The user library, user/lib/acky.c: the functions that put a structure on the stack and make the call of the kernel
-- on it. The stubs of user/lib/acky.asm load 13 into EAX, the number of the request into EBX and the address of
-- the structure into ECX. That address, in the process, is an argument, and so is what a structure holds
-- where the code writes nothing. A number is cut to the 16 bits of its field.
mod Tests
pub mod Drawn
pub mod Window
use acky.Base.{ℕ, zero, suc, ◌+◌, ◌/◌, ◌%◌, ◌^◌, Option, List, [], ◌∷◌, ◌++◌}
use acky.Syscall.{System, Environment, Reply, ram_of, with_ram, user_address}
use acky.Syscall.Bytes.{store_bytes}
use acky.Syscall.Dispatch.{sys_call}

-- A `uint16_t`.
abbrev pub word_bytes : ℕ → List ℕ
word_bytes v = v % 2 ^ 8 ∷ v / 2 ^ 8 % 2 ^ 8 ∷ []

-- `pixelInfo` of the library: blue comes first.
abbrev pub pixel_bytes : (x y r g b : ℕ) → List ℕ
pixel_bytes x y r g b =
    b ∷ g ∷ r ∷ x % 2 ^ 8 ∷ x / 2 ^ 8 % 2 ^ 8 ∷ y % 2 ^ 8 ∷ y / 2 ^ 8 % 2 ^ 8 ∷ []

-- `lineInfo`.
abbrev pub line_bytes : (x1 y1 x2 y2 r g b : ℕ) → List ℕ
line_bytes x1 y1 x2 y2 r g b = pixel_bytes x1 y1 r g b ++ word_bytes x2 ++ word_bytes y2

-- `memcpy` from an array, from the byte `i` on.
abbrev pub memcpy : (src : ℕ → ℕ) → (i n : ℕ) → List ℕ
memcpy src i zero = []
memcpy src i (suc n) = src i ∷ memcpy src (i + 1) n

-- `windowDesc`, whose signature is not written.
abbrev pub window_bytes : (stale : List ℕ) → (x y width height : ℕ) → (name : ℕ → ℕ) → List ℕ
window_bytes stale x y width height name =
    stale
    ++ word_bytes x
    ++ word_bytes y
    ++ word_bytes width
    ++ word_bytes height
    ++ memcpy name 0 20

-- The structure is put at `at`, and the call is made.
abbrev pub request_with : ℕ → Environment → (number at : ℕ) → List ℕ → System → Option Reply
request_with fuel env number at bytes s =
    sys_call fuel env (record { eax = 13; ebx = number; ecx = at; edx = 0 })
      (with_ram s (store_bytes (ram_of s) (user_address s at) bytes))

unfoldable pub put_pixel : ℕ → Environment → (at x y r g b : ℕ) → System → Option Reply
unfolding sys_call store_bytes
put_pixel fuel env at x y r g b s = request_with fuel env 1 at (pixel_bytes x y r g b) s

unfoldable pub draw_line : ℕ → Environment → (at x1 y1 x2 y2 r g b : ℕ) → System → Option Reply
unfolding sys_call store_bytes
draw_line fuel env at x1 y1 x2 y2 r g b s =
    request_with fuel env 2 at (line_bytes x1 y1 x2 y2 r g b) s

unfoldable pub draw_square :
    ℕ → Environment → (at x y width height r g b : ℕ) → System → Option Reply
unfolding sys_call store_bytes
draw_square fuel env at x y width height r g b s =
    request_with fuel env 5 at (line_bytes x y width height r g b) s

unfoldable pub create_window :
    ℕ
    → Environment
    → (stale : List ℕ) → (at x y width height : ℕ) → (name : ℕ → ℕ) → System
    → Option Reply
unfolding sys_call store_bytes
create_window fuel env stale at x y width height name s =
    request_with fuel env 0 at (window_bytes stale x y width height name) s
