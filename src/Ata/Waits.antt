-- ===== src/Ata/Waits.antt =====
-- The loops of foki/ata.c that wait for a drive come to an end when it settles.
use acky.Base.{
  ℕ, zero, suc, ◌+◌, ◌/◌, ◌%◌, ◌<◌, ◌≤◌, ◌≡◌, ◌⊎◌, inl, inr, refl, arith, if◌then◌else◌, ◌==◌,
  Bool-cases, ltb, some, not, ◌&&◌,
}
use acky.Ata.Identify.{Device, busy_wait, ata_wait_ready}

-- The status of a drive that is ready to hand over its data: neither busy nor in error.
pub record IsReady (status : ℕ) : Type 0 where
  pub idle : status / 128 % 2 ≡ 0
  pub requests : status / 8 % 2 ≡ 1
  pub right : status % 2 ≡ 0

compare_lem : (i n : ℕ) → (i < n) ⊎ (n ≤ i)
compare_lem i n = elim (Bool-cases (ltb i n)) [
  | inl h ↦ inl (ground arith)
  | inr h ↦ inr (ground arith)
]

-- There is no drive, or one that is ready from the answer `n` on.
abbrev pub Settles : Device → ℕ → Type 0
Settles dev n = (dev.status 0 ≡ 0) ⊎ ((k : ℕ) → n ≤ k → IsReady (dev.status k))

pub busy_wait_ends :
    (fuel : ℕ) (status : ℕ → ℕ) (n i : ℕ)
    → ((k : ℕ) → n ≤ k → IsReady (status k))
    → 0 < fuel
    → n < fuel + i
    → (j : ℕ) × (busy_wait fuel status i ≡ some j) × (i ≤ j)
unfolding busy_wait
busy_wait_ends zero status n i ready some_fuel enough = absurd (omega (arith, some_fuel))
busy_wait_ends (suc fuel) status n i ready some_fuel enough =
    elim (Bool-cases (status i / 128 % 2 == 0)) [
      | inl idle ↦ (i + 1, rw idle refl, omega arith)
      | inr busy ↦
          let early : i < n = elim (compare_lem i n) [
            | inl below ↦ below
            | inr past ↦ absurd (ground (arith, (ready i past).idle))
          ] in
          let (j, ran, later) =
            busy_wait_ends fuel status n (i + 1) ready (omega (arith, enough, early))
              (omega (arith, enough)) in
          (j, rw (busy, ran) refl, omega (arith, later))
    ]

pub ready_wait_ends :
    (fuel : ℕ) (status : ℕ → ℕ) (n i : ℕ)
    → ((k : ℕ) → n ≤ k → IsReady (status k))
    → 0 < fuel
    → n < fuel + i
    → (j : ℕ) × (ata_wait_ready fuel status i ≡ some j)
unfolding ata_wait_ready
ready_wait_ends zero status n i ready some_fuel enough = absurd (omega (arith, some_fuel))
ready_wait_ends (suc fuel) status n i ready some_fuel enough =
    let requests = not (status i / 8 % 2 == 0) in
    let next = if requests then i + 2 else i + 1 in
    elim (Bool-cases (requests && status (i + 1) % 2 == 0)) [
      | inl over ↦ (next, rw over refl)
      | inr more ↦
          let early : i < n = elim (compare_lem i n) [
            | inl below ↦ below
            | inr past ↦ absurd (
                ground
                  (arith, (ready i past).requests, (ready (i + 1) (omega (arith, past))).right))
          ] in
          let on : (i + 1 ≤ next) = ground arith in
          let (j, ran) =
            ready_wait_ends fuel status n next ready (omega (arith, enough, early))
              (omega (arith, enough, on)) in
          (j, rw (more, ran) refl)
    ]
