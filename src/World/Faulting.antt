-- ===== src/World/Faulting.antt =====
-- An exception takes a process away, or nothing.
use acky.Base.{
  sym, Option-cases, Bool-cases, inl, inr, ◌++◌, text, arith, ℕ, ◌≡◌, refl, Option, some, none,
  List, ◌==◌,
}
use acky.Pit.{Frame}
use acky.Idt.{Handler}
use acky.Faults.{reports, frame_seen}
use acky.Faults.Report.{
  Ending, Stack, Selectors, say, log, wipe, report_text, frame_text, last_process, int_herr_report,
  message, debugs, handle_body, handle,
}
use acky.Console.{print, set_color_attribute}
use acky.Syscall.{System, console_of, with_console}
use acky.World.Calls.{with_ram-IsHealthy}
use acky.World.Places.{IsHealthy, kill-IsHealthy}
use acky.World.Keyboard.{Every, Every-if}

-- A system that goes on is healthy.
Resumes : Ending → Type 0
Resumes (Ending.resumed s f) = IsHealthy s.kernel
Resumes (Ending.halted s) = Unit

say-IsHealthy :
    (fuel : ℕ) (str : List ℕ) (s s' : System)
    → say fuel str s ≡ some s'
    → IsHealthy s.kernel
    → IsHealthy s'.kernel
say-IsHealthy fuel str s s' said h = elim (Option-cases (print fuel (console_of s) str)) [
  | inl runs ↦ absurd (ground arith)
  | inr (c, printed) ↦
      let same : s' ≡ with_console s c = ground arith in
      rw same (with_ram-IsHealthy s.kernel c.ram h)
]

int_herr_report-Resumes :
    (fuel : ℕ) (str : List ℕ) (esp : Stack) (f : Frame) (s : System)
    → IsHealthy s.kernel
    → Every Resumes (int_herr_report fuel str esp f s)
unfolding int_herr_report Resumes set_color_attribute
int_herr_report-Resumes fuel str esp f s h =
    let s₁ =
      log
        (text "[Herr]: System stopped due to a kernel panic.\n[Herr]: Error message: "
          ++ str
          ++ text "\n")
        (wipe s) in
    let h₁ = with_ram-IsHealthy s.kernel (console_of (wipe s)).ram h in
    let shown = report_text str esp ++ frame_text f in
    elim (Option-cases (say fuel shown s₁)) [
      | inl runs ↦ rw (int_herr_report, runs) tt
      | inr (s₂, said) ↦
          let h₂ = say-IsHealthy fuel shown s₁ s₂ said h₁ in
          elim (Bool-cases (f.cs == 0x07)) [
            | inl user ↦
                rw (int_herr_report, said, user)
                  (kill-IsHealthy s₂.kernel s₂.kernel.scheduler_process_at h₂)
            | inr outside ↦ elim (Option-cases (say fuel (last_process s₂) s₂)) [
              | inl runs ↦ rw (int_herr_report, said, outside, runs) tt
              | inr (s₃, last) ↦ rw (int_herr_report, said, outside, last) tt
            ]
          ]
    ]

debugs-Resumes :
    (fuel : ℕ) (h : Handler) (f : Frame) (s : System)
    → IsHealthy s.kernel
    → Every Resumes (debugs fuel h f s)
unfolding Resumes
debugs-Resumes fuel Handler.debug_err f s healthy =
    elim (Option-cases (print fuel (console_of s) (message Handler.debug_err))) [
      | inl runs ↦ rw (debugs, say, runs) tt
      | inr (c, printed) ↦ rw (debugs, say, printed) (with_ram-IsHealthy s.kernel c.ram healthy)
    ]
debugs-Resumes fuel h f s healthy = healthy

pub handle-IsHealthy :
    (fuel : ℕ) (h : Handler) (esp : Stack) (code : ℕ) (f f' : Frame) (s s' : System)
    (sel : Selectors)
    → handle fuel h esp code f s ≡ some (Ending.resumed s' f', sel)
    → IsHealthy s.kernel
    → IsHealthy s'.kernel
unfolding handle Resumes
handle-IsHealthy fuel h esp code f f' s s' sel e healthy =
    go (handle_body fuel h esp (frame_seen h code f) s) refl (
      Every-if (Every Resumes) (reports h) _ _
        (int_herr_report-Resumes fuel (message h) esp (frame_seen h code f) s healthy)
        (debugs-Resumes fuel h (frame_seen h code f) s healthy))
  where
    go :
        (o : Option Ending)
        → handle_body fuel h esp (frame_seen h code f) s ≡ o
        → Every Resumes o
        → IsHealthy s'.kernel
    go none ran sound = absurd (ground arith)
    go (some (Ending.resumed s₁ f₁)) ran sound =
        let same : s₁ ≡ s' = ground arith in rw (sym same) sound
    go (some (Ending.halted s₁)) ran sound = absurd (ground arith)
