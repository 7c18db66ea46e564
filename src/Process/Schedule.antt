-- ===== src/Process/Schedule.antt =====
-- The scheduler of foki/process.c: which process `getNextProcess` picks, and when.
use acky.Base.{
  ℕ, zero, suc, ◌+◌, ◌-◌, ◌≤◌, ◌<◌, ◌≡◌, ◌≢◌, refl, u32, arith, ◌==◌, inl, inr, Bool-cases,
  if◌then◌else◌, ltb, Option, some, none, true, false,
}
use acky.Process.{Process, Kernel, get_next_process_dry, advance, next_from, get_next_process}

-- The turns of the loop from `at` until it comes to process `r`.
abbrev pub turns : ℕ → ℕ → ℕ → ℕ
turns count at r = if ltb at r then r - at else if ltb at count then count - 1 - at + r else r

-- A process that may run: in the table, not the kernel's, not waiting.
pub record IsReady (ps : ℕ → Process) (count r : ℕ) : Type 0 where
  pub user : 1 ≤ r
  pub listed : r < count
  pub runs : (ps r).waiting ≡ false

-- Of the ready processes, `j` is the one that comes first behind `at`.
pub record IsNext (ps : ℕ → Process) (count at j : ℕ) : Type 0 where
  pub ready : IsReady ps count j
  pub nearest : (r : ℕ) → IsReady ps count r → turns count at j ≤ turns count at r

-- A turn brings every process but the one that it comes to one turn nearer.
turns-advance :
    (count at r : ℕ)
    → 1 ≤ r
    → r < count
    → count < u32
    → at < u32 - 1
    → advance count at ≢ r
    → turns count at r ≡ suc (turns count (advance count at) r)
unfolding advance
turns-advance count at r user listed small at_small other = ground arith

advance_bounds :
    (count at : ℕ)
    → 1 < count
    → count < u32
    → at < u32 - 1
    → (1 ≤ advance count at) × (advance count at < count)
unfolding advance
advance_bounds count at some_user small at_small = ground arith

turns_self :
    (count at : ℕ) → 1 < count → count < u32 → at < u32 - 1 → turns count at (advance count at) ≡ 1
unfolding advance
turns_self count at some_user small at_small = ground arith

turns_pos : (count at r : ℕ) → 1 ≤ r → r < count → 1 ≤ turns count at r
turns_pos count at r user listed = ground arith

next_from-IsNext :
    (fuel : ℕ) (ps : ℕ → Process) (count at r : ℕ)
    → count < u32
    → at < u32 - 1
    → IsReady ps count r
    → turns count at r ≤ fuel
    → (j : ℕ) × (next_from fuel ps count at ≡ some j) × IsNext ps count at j
unfolding next_from
next_from-IsNext zero ps count at r small at_small ready f =
    absurd (omega (arith, turns_pos count at r ready.user ready.listed))
next_from-IsNext (suc fuel) ps count at r small at_small ready f =
    let user : 1 < count = omega (arith, ready.user, ready.listed) in
    let next = advance count at in
    let (lo, hi) = advance_bounds count at user small at_small in
    elim (Bool-cases (ps next).waiting) [
      | inl busy ↦
          let other : (q : ℕ) → IsReady ps count q → next ≢ q = λ q w. ground (arith, w.runs) in
          let nearer : (q : ℕ) → IsReady ps count q → turns count at q ≡ suc (turns count next q) =
            λ q w. turns-advance count at q w.user w.listed small at_small (other q w) in
          let (j, run, n) =
            next_from-IsNext fuel ps count next r small (omega arith) ready
              (omega (arith, nearer r ready)) in
          (
            j,
            rw busy run,
            record {
              ready = n.ready;
              nearest = λ q w. omega (arith, nearer q w, nearer j n.ready, n.nearest q w);
            },
          )
      | inr free ↦ (
        next,
        rw free,
        record {
          ready = record { user = lo; listed = hi; runs = free };
          nearest = λ q w. omega (
            arith,
            turns_self count at user small at_small,
            turns_pos count at q w.user w.listed,
          );
        },
      )
    ]

turns-le : (count at r : ℕ) → r < count → turns count at r ≤ count
turns-le count at r listed = ground arith

-- Whenever some user process is ready, `getNextProcess` returns, within as many turns as there are
-- processes: it picks the ready process that comes first in cyclic order behind the last one
-- picked, and moves the scheduler there, changing nothing else.
pub get_next_process-IsNext :
    (k : Kernel) (r : ℕ)
    → k.process_count < u32
    → k.scheduler_process_at < u32 - 1
    → IsReady k.processes k.process_count r
    → (j : ℕ) × (get_next_process k.process_count k
        ≡ some (j, record k { scheduler_process_at = j }))
      × IsNext k.processes k.process_count k.scheduler_process_at j
unfolding get_next_process
get_next_process-IsNext k r small at_small ready =
    let (j, run, n) =
      next_from-IsNext k.process_count k.processes k.process_count k.scheduler_process_at r small
        at_small ready (turns-le k.process_count k.scheduler_process_at r ready.listed) in
    let some_process : (k.process_count == 0) ≡ false = ground (arith, ready.listed) in
    (j, ground arith, n)

next_from-waiting :
    (fuel : ℕ) (ps : ℕ → Process) (count at : ℕ)
    → 1 < count
    → count < u32
    → at < u32 - 1
    → ((j : ℕ) → 1 ≤ j → j < count → (ps j).waiting ≡ true)
    → next_from fuel ps count at ≡ none
unfolding next_from
next_from-waiting zero ps count at user small at_small busy = refl
next_from-waiting (suc fuel) ps count at user small at_small busy =
    let (lo, hi) = advance_bounds count at user small at_small in
    rw (busy (advance count at) lo hi)
      (next_from-waiting fuel ps count (advance count at) user small (omega arith) busy)

-- When every user process waits, the loop of `getNextProcessDry` never ends, whatever the fuel.
pub get_next_process-hangs :
    (fuel : ℕ) (k : Kernel)
    → 1 < k.process_count
    → k.process_count < u32
    → k.scheduler_process_at < u32 - 1
    → ((j : ℕ) → 1 ≤ j → j < k.process_count → (k.processes j).waiting ≡ true)
    → get_next_process fuel k ≡ none
unfolding get_next_process
get_next_process-hangs fuel k user small at_small busy =
    let some_process : (k.process_count == 0) ≡ false = ground arith in
    let run =
      next_from-waiting fuel k.processes k.process_count k.scheduler_process_at user small at_small
        busy in
    ground arith

-- Where the scheduler stands after a number of picks, the table being another one at each of them.
pub position : (ℕ → ℕ → Process) → ℕ → ℕ → ℕ → Option ℕ
position tables count at zero = some at
position tables count at (suc n) = elim (next_from count (tables 0) count at) [
  | none ↦ none
  | some j ↦ position (λ i. tables (suc i)) count j n
]

turns-split :
    (count at j r : ℕ)
    → 1 ≤ j
    → j < count
    → 1 ≤ r
    → r < count
    → j ≢ r
    → turns count at j ≤ turns count at r
    → turns count j r < turns count at r
turns-split count at j r a b c d ne near = ground arith

position-ready :
    (d : ℕ) (tables : ℕ → ℕ → Process) (count at r : ℕ)
    → count < u32
    → at < u32 - 1
    → ((i : ℕ) → IsReady (tables i) count r)
    → turns count at r ≤ d
    → (n : ℕ) × (n < d) × (position tables count at (suc n) ≡ some r)
unfolding position
position-ready zero tables count at r small at_small ready f =
    absurd (omega (arith, turns_pos count at r (ready 0).user (ready 0).listed))
position-ready (suc d) tables count at r small at_small ready f =
    let user = (ready 0).user in
    let listed = (ready 0).listed in
    let (j, run, n) =
      next_from-IsNext count (tables 0) count at r small at_small (ready 0)
        (turns-le count at r listed) in
    elim (Bool-cases (j == r)) [
      | inl picked ↦ (0, omega arith, ground arith)
      | inr other ↦
          let near =
            turns-split count at j r n.ready.user n.ready.listed user listed (ground arith)
              (n.nearest r (ready 0)) in
          let (m, below, rest) =
            position-ready d (λ i. tables (suc i)) count j r small (omega (arith, n.ready.listed))
              (λ i. ready (suc i)) (omega arith) in
          (suc m, omega arith, ground arith)
    ]

-- No ready process starves while the table keeps its length and order: a process that stays ready at its
-- index is picked within as many picks as there are processes, whichever of the other processes wait or
-- run at each pick. Between these picks no process starts or ends.
pub position_fair :
    (tables : ℕ → ℕ → Process) (count at r : ℕ)
    → count < u32
    → at < u32 - 1
    → ((i : ℕ) → IsReady (tables i) count r)
    → (n : ℕ) × (n < count) × (position tables count at (suc n) ≡ some r)
position_fair tables count at r small at_small ready =
    position-ready count tables count at r small at_small ready
      (turns-le count at r (ready 0).listed)

-- With only the kernel's process in the table, the scheduler picks index 1, behind its end, if the
-- cell there is not marked as waiting.
pub get_next_process_alone :
    (k : Kernel)
    → k.process_count ≡ 1
    → k.scheduler_process_at < u32 - 1
    → (k.processes 1).waiting ≡ false
    → get_next_process 1 k ≡ some (1, record k { scheduler_process_at = 1 })
unfolding get_next_process
get_next_process_alone k one at_small free = ground arith

-- A pick moves the scheduler and changes nothing else.
pub get_next_process_inversion :
    (fuel : ℕ) (k : Kernel) (next : ℕ) (k' : Kernel)
    → get_next_process fuel k ≡ some (next, k')
    → k' ≡ record k { scheduler_process_at = next }
unfolding get_next_process
get_next_process_inversion fuel k next k' h = go (get_next_process_dry fuel k) refl
  where
    go :
        (o : Option ℕ)
        → get_next_process_dry fuel k ≡ o
        → k' ≡ record k { scheduler_process_at = next }
    go none e = absurd (ground arith)
    go (some at) e = ground arith
