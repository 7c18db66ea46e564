-- ===== src/Faults/Outcomes.antt =====
-- What an exception does to the processes.
use acky.Base.{ℕ, ◌≡◌, ◌≢◌, ◌⊎◌, inl, inr, refl, arith, ◌==◌, Bool-cases, false, none, some}
use acky.Process.{Kernel, kill, get_process_index_from_pid}
use acky.Process.Entries.{IsCoherent}
use acky.Process.Kill.{kill-unknown, kill-IsCoherent}
use acky.Idt.{Handler}
use acky.Pit.{Frame}
use acky.Faults.{reports, int_herr, fault}

is_seven : (n : ℕ) → (n == 0x07) ≡ false → n ≢ 0x07
is_seven n h = ground arith

-- An exception halts the machine, which only happens outside of a process (CS is not 7), or it returns
-- to the instruction that it came from, with a table of processes that is as coherent as before.
-- In that case, when no process has the index of the one that runs as its pid, the table is as
-- before: the process that caused the exception is still there.
pub fault-outcomes :
    (h : Handler) (k : Kernel) (f : Frame)
    → IsCoherent k
    → ((fault h k f ≡ none) × (f.cs ≢ 0x07))
      ⊎ ((k' : Kernel) × (f' : Frame) × (fault h k f ≡ some (k', f'))
          × (f'.ip ≡ f.ip)
          × IsCoherent k'
          × (get_process_index_from_pid k k.scheduler_process_at ≡ none → k' ≡ k))
unfolding fault int_herr
fault-outcomes h k f c = elim (Bool-cases (reports h)) [
  | inr quiet ↦ inr (k, f, rw (fault, quiet) refl, refl, c, λ missing. refl)
  | inl loud ↦ elim (Bool-cases (f.cs == 0x07)) [
    | inr outside ↦ inl (rw (fault, loud, outside) refl, is_seven f.cs outside)
    | inl user ↦ inr (
      kill k k.scheduler_process_at,
      record f { ss = 0x0F },
      rw (fault, loud, user) refl,
      refl,
      kill-IsCoherent k k.scheduler_process_at c,
      λ missing. kill-unknown k k.scheduler_process_at missing,
    )
  ]
]
