-- ===== src/Pit/Clock.antt =====
-- `sleep` and `initPIT` of foki/pit.c. What the loop of `sleep` reads in `tick`, which the interrupt counts up,
-- is an argument; the loop takes fuel, and `none` means that it still runs.
use acky.Base.{
  ℕ, zero, suc, ◌+◌, ◌/◌, ◌%◌, ◌^◌, ◌<◌, ◌≤◌, ◌≡◌, u32, if◌then◌else◌, ltb, add32, sub32, Option,
  none, some, List, ◌∷◌,
}
use acky.Io.{PortWrite, outb}

-- `while (tick - start < t);`, from the reading `i` on: how often it was read.
unfoldable pub wait_ticks : ℕ → (tick : ℕ → ℕ) → (start t i : ℕ) → Option ℕ
wait_ticks zero tick start t i = none
wait_ticks (suc fuel) tick start t i =
    let rest = wait_ticks fuel tick start t (i + 1) in
    if ltb (sub32 (tick i) start) t then rest else some i

-- The first reading is `start`.
unfoldable pub sleep : ℕ → (tick : ℕ → ℕ) → (t : ℕ) → Option ℕ
unfolding wait_ticks
sleep fuel tick t = wait_ticks fuel tick (tick 0) t 1

unfoldable pub init_pit : (freq : ℕ) → List PortWrite → List PortWrite
init_pit freq ports =
    let divisor = 1193180 / freq in
    outb 0x40 (divisor / 2 ^ 8 % 2 ^ 8) ∷ outb 0x40 (divisor % 2 ^ 8) ∷ outb 0x43 0x36 ∷ ports

-- The readings of a tick that is counted up now and then: `elapsed` is how often, and `n` the reading when
-- it has been counted up `t` times.
pub record Ticks (tick elapsed : ℕ → ℕ) (t n : ℕ) : Type 0 where
  pub reads : (k : ℕ) → tick k ≡ add32 (tick 0) (elapsed k)
  pub small : tick 0 < u32
  pub from : elapsed 0 ≡ 0
  pub slow : (k : ℕ) → elapsed (k + 1) ≤ elapsed k + 1
  pub reached : elapsed n ≡ t
