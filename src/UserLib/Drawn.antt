-- ===== src/UserLib/Drawn.antt =====
-- What `putPixel` of the library puts on the screen.
use acky.Base.{
  ℕ, ◌+◌, ◌*◌, ◌/◌, ◌%◌, ◌^◌, ◌<◌, ◌≡◌, refl, zero, suc, sym, ◌∙◌, ap, length, arith, u32, add32,
  ◌==◌, leb, ◌||◌, not, some, true, false, List, [], ◌∷◌,
}
use acky.Ram.{Ram}
use acky.Graphics
use acky.Graphics.{PixelInfo, VbeReturn, pixel_at}
use acky.Syscall.{System, Environment, Reply, sret_success, caller, ram_of, with_ram, user_address}
use acky.Syscall.Bytes.{store_bytes, bytes_at, pixel_info_at}
use acky.Syscall.Mail.{bytes_at-store_bytes}
use acky.Syscall.Screen.{sc_graphics, owner_graphics, owner_draw}
use acky.Syscall.Dispatch.{sys_call}
use acky.UserLib
use acky.UserLib.{pixel_bytes}

-- A byte of a list.
abbrev pub nth : ℕ → List ℕ → ℕ
nth i [] = 0
nth zero (b ∷ bs) = b
nth (suc i) (b ∷ bs) = nth i bs

nth-bytes_at : (m : Ram) (a n k : ℕ) → a + n < u32 → k < n → nth k (bytes_at m a n) ≡ m (add32 a k)
unfolding bytes_at
nth-bytes_at m a zero k h lt = absurd (omega (arith, lt))
nth-bytes_at m a (suc n) zero h lt = ap m (omega (arith, h))
nth-bytes_at m a (suc n) (suc k) h lt =
    nth-bytes_at m (add32 a 1) n k (omega (arith, h)) (omega (arith, lt))
    ∙ ap m (omega (arith, h, lt))

-- Each byte of a stored list is found at its place.
pub store_bytes-nth :
    (m : Ram) (a : ℕ) (bs : List ℕ) (k : ℕ)
    → a + length bs < u32
    → k < length bs
    → store_bytes m a bs (add32 a k) ≡ nth k bs
store_bytes-nth m a bs k h lt =
    let n = length bs in
    sym (nth-bytes_at (store_bytes m a bs) a n k h lt) ∙ ap (nth k) (bytes_at-store_bytes m a bs h)

stored_pixel :
    (m : Ram) (a x y r g b : ℕ)
    → a + 7 < u32
    → pixel_info_at (store_bytes m a (pixel_bytes x y r g b)) a
      ≡ record { r = b; g = g; b = r; x = x % 2 ^ 16; y = y % 2 ^ 16 }
stored_pixel m a x y r g b h =
    let bytes = pixel_bytes x y r g b in
    let at : (k : ℕ) → k < 7 → store_bytes m a bytes (add32 a k) ≡ nth k bytes =
      λ k lt. store_bytes-nth m a bytes k h lt in
    let zeroth : a ≡ add32 a 0 = omega (arith, h) in
    let blue : store_bytes m a bytes a ≡ b =
      ap (store_bytes m a bytes) zeroth ∙ at 0 (omega arith) in
    let fourth : add32 (add32 a 3) 1 ≡ add32 a 4 = omega (arith, h) in
    let sixth : add32 (add32 a 5) 1 ≡ add32 a 6 = omega (arith, h) in
    let wide : (v : ℕ) → v % 2 ^ 8 + v / 2 ^ 8 % 2 ^ 8 * 2 ^ 8 ≡ v % 2 ^ 16 = λ v. omega arith in
    rw
      (
        blue,
        at 1 (omega arith),
        at 2 (omega arith),
        fourth,
        sixth,
        at 3 (omega arith),
        at 4 (omega arith),
        at 5 (omega arith),
        at 6 (omega arith),
        wide x,
        wide y,
      )
      refl

put_pixel_cells :
    (vbe : VbeReturn) (m : Ram) (x y r g b : ℕ)
    → (let m' = Graphics.put_pixel vbe m x y r g b in
        let pixel = pixel_at vbe x y in
        (m' pixel ≡ r) × (m' (add32 pixel 1) ≡ g) × (m' (add32 pixel 2) ≡ b))
unfolding Graphics.put_pixel pixel_at
put_pixel_cells vbe m x y r g b = (ground arith, ground arith, ground arith)

-- The process that may draw, or the first one that asks, sees its pixel: `putPixel` of the library succeeds, and
-- in the frame buffer stand blue, green and red, in this order, at the place of the pixel. The structures of
-- the library and of the kernel name the first and the third byte the other way round.
pub put_pixel-shown :
    (fuel : ℕ) (env : Environment) (at x y r g b : ℕ) (s : System)
    → (((caller s).pid == s.owner_pid) || not s.owner_set) ≡ true
    → at < (caller s).mem_size
    → (caller s).mem_start + (caller s).mem_size + 7 < u32
    → (s' : System) × (UserLib.put_pixel fuel env at x y r g b s
        ≡ some (Reply.returned sret_success s'))
      × (let pixel = pixel_at s.vbe (x % 2 ^ 16) (y % 2 ^ 16) in
          (ram_of s' pixel ≡ b) × (ram_of s' (add32 pixel 1) ≡ g) × (ram_of s' (add32 pixel 2) ≡ r))
unfolding UserLib.put_pixel sys_call sc_graphics owner_graphics owner_draw
put_pixel-shown fuel env at x y r g b s owner inside fits =
    let info = user_address s at in
    let m = store_bytes (ram_of s) info (pixel_bytes x y r g b) in
    let valid : leb (caller s).mem_size at ≡ false = ground arith in
    let low : info + 7 < u32 = omega (arith, inside, fits) in
    let stored = stored_pixel (ram_of s) info x y r g b low in
    let s₁ = with_ram s m in
    let called : sc_graphics fuel env 1 at s₁ ≡ owner_draw fuel 1 info s₁ =
      rw (sc_graphics, owner, owner_graphics, valid) refl in
    let draws =
      ap
        (λ (p : PixelInfo). some (
          Reply.returned sret_success
            (with_ram s (Graphics.put_pixel s.vbe m p.x p.y p.r p.g p.b))))
        stored in
    let drawn = Graphics.put_pixel s.vbe m (x % 2 ^ 16) (y % 2 ^ 16) b g r in
    (with_ram s drawn, called ∙ draws, put_pixel_cells s.vbe m (x % 2 ^ 16) (y % 2 ^ 16) b g r)
