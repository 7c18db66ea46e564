-- ===== src/Faults/Return.antt =====
-- The handlers come to an end, and what they leave.
use acky.Base.{
  ℕ, ◌-◌, ◌≡◌, ◌≢◌, ◌⊎◌, refl, arith, ◌==◌, Bool-cases, Option-cases, inl, inr, some, true, false,
  List, ◌++◌, text,
}
use acky.Ram.{Ram}
use acky.Process.{find_pid, Kernel, kill, get_process_index_from_pid}
use acky.Console.Cells.{OnScreen, print-OnScreen}
use acky.Console.{Console, set_color_attribute, clear_scr, disable_cursor}
use acky.Idt.{Handler}
use acky.Pit.{Frame}
use acky.Faults.{reports, frame_seen}
use acky.Syscall.{System, console_of, with_console}
use acky.Faults.Report.{
  Stack, Ending, say, wipe, log, report_text, frame_text, last_process, message, int_herr_report,
  handle, default_color,
}
use acky.Faults.Forward.{
  is_forward-++, IsForward, at-IsForward, report-IsForward, message-IsForward,
}

say_total :
    (fuel : ℕ) (str : List ℕ) (s : System)
    → OnScreen (console_of s)
    → IsForward str
    → (c : Console) × (say fuel str s ≡ some (with_console s c)) × OnScreen c
say_total fuel str s on h =
    let (c, printed, stays, outside) =
      print-OnScreen fuel str (console_of s) on (at-IsForward str h) in
    (c, rw (say, printed) refl, stays)

wipe-OnScreen : (s : System) → OnScreen (console_of (wipe s))
unfolding clear_scr set_color_attribute
wipe-OnScreen s = record { from = omega arith; to = omega arith; even = refl }

-- What is left of the processes after `kill` does not depend on the memory.
kill_table :
    (k : Kernel) (m : Ram) (pid : ℕ)
    → ((kill (record k { memory = record k.memory { ram = m } }) pid).processes
        ≡ (kill k pid).processes)
      × ((kill (record k { memory = record k.memory { ram = m } }) pid).process_count
          ≡ (kill k pid).process_count)
unfolding kill get_process_index_from_pid
kill_table k m pid = elim (Option-cases (find_pid k.processes pid 1 (k.process_count - 1))) [
  | inl unknown ↦ rw (kill, unknown) (refl, refl)
  | inr (idx, found) ↦ rw (kill, found) (refl, refl)
]

log-OnScreen :
    (str : List ℕ) (s : System) → OnScreen (console_of s) → OnScreen (console_of (log str s))
log-OnScreen str s on = record { from = on.from; to = on.to; even = on.even }

-- What the handlers leave behind.
pub record Left (s' : System) (k : Kernel) : Type 0 where
  pub processes : s'.kernel.processes ≡ k.processes
  pub count : s'.kernel.process_count ≡ k.process_count

int_herr_report-user :
    (fuel : ℕ) (str : List ℕ) (esp : Stack) (f : Frame) (s : System)
    → IsForward str
    → f.cs ≡ 0x07
    → (s' : System) × (int_herr_report fuel str esp f s
        ≡ some (Ending.resumed s' (record f { ss = 0x0F })))
      × Left s' (kill s.kernel s.kernel.scheduler_process_at)
      × (s'.color_attribute ≡ default_color)
unfolding int_herr_report set_color_attribute
int_herr_report-user fuel str esp f s h user =
    let s₁ =
      log
        (text "[Herr]: System stopped due to a kernel panic.\n[Herr]: Error message: "
          ++ str
          ++ text "\n")
        (wipe s) in
    let (c, said, on) =
      say_total fuel (report_text str esp ++ frame_text f) s₁
        (log-OnScreen _ (wipe s) (wipe-OnScreen s)) (report-IsForward str esp f h) in
    let is_user : (f.cs == 0x07) ≡ true = ground arith in
    let k = (with_console s₁ c).kernel in
    let s₂ = record (with_console s₁ c) { kernel = kill k k.scheduler_process_at } in
    let (processes, count) = kill_table s.kernel c.ram s.kernel.scheduler_process_at in
    (
      record s₂ { color_attribute = default_color },
      rw (int_herr_report, said, is_user) refl,
      record { processes = processes; count = count },
      refl,
    )

int_herr_report-halts :
    (fuel : ℕ) (str : List ℕ) (esp : Stack) (f : Frame) (s : System)
    → IsForward str
    → IsForward (s.kernel.processes s.kernel.scheduler_process_at).name
    → f.cs ≢ 0x07
    → (s' : System) × (int_herr_report fuel str esp f s ≡ some (Ending.halted s'))
      × Left s' s.kernel
unfolding int_herr_report last_process disable_cursor
int_herr_report-halts fuel str esp f s h name outside =
    let s₁ =
      log
        (text "[Herr]: System stopped due to a kernel panic.\n[Herr]: Error message: "
          ++ str
          ++ text "\n")
        (wipe s) in
    let (c, said, on) =
      say_total fuel (report_text str esp ++ frame_text f) s₁
        (log-OnScreen _ (wipe s) (wipe-OnScreen s)) (report-IsForward str esp f h) in
    let s₂ = with_console s₁ c in
    let is_kernel : (f.cs == 0x07) ≡ false = ground arith in
    let last : IsForward (last_process s₂) = simp (is_forward-++, name) refl in
    let (d, ended, on') = say_total fuel (last_process s₂) s₂ on last in
    let s₃ = with_console s₂ d in
    (
      with_console s₃ (disable_cursor (console_of s₃)),
      rw (int_herr_report, said, is_kernel, ended) refl,
      record { processes = refl; count = refl },
    )

-- A handler that reports comes to an end, when the name of the process that runs holds no backspace. It
-- looks at the frame that it sees: that of the processor, or, for an exception with an error code, the
-- words one further down the stack, with EIP in the place of CS. If 7, the CS of a process, stands there, it
-- returns through this frame with the data segments of a process, the table of processes is as
-- after `kill` of the index of the one that runs, and the colour is the usual one. Otherwise it halts
-- with the table as it was; so an exception with an error code halts the kernel unless EIP is 7.
pub handle-outcomes :
    (fuel : ℕ) (h : Handler) (esp : Stack) (code : ℕ) (f : Frame) (s : System)
    → reports h ≡ true
    → IsForward (s.kernel.processes s.kernel.scheduler_process_at).name
    → (((frame_seen h code f).cs ≡ 0x07)
        × (s' : System) × (handle fuel h esp code f s
            ≡ some (
              Ending.resumed s' (record (frame_seen h code f) { ss = 0x0F }),
              record { ds = 0x0F; es = 0x0F },
            ))
        × Left s' (kill s.kernel s.kernel.scheduler_process_at)
        × (s'.color_attribute ≡ default_color))
      ⊎ (((frame_seen h code f).cs ≢ 0x07)
          × (s' : System) × (handle fuel h esp code f s
              ≡ some (Ending.halted s', record { ds = 0x10; es = 0x10 }))
          × Left s' s.kernel)
unfolding handle
handle-outcomes fuel h esp code f s loud name =
    let g = frame_seen h code f in
    elim (Bool-cases (g.cs == 0x07)) [
      | inl user ↦
          let seven : g.cs ≡ 0x07 = ground (arith, user) in
          let (s', ran, left, color) =
            int_herr_report-user fuel (message h) esp g s (message-IsForward h) seven in
          inl (seven, s', rw (handle, loud, ran) refl, left, color)
      | inr outside ↦
          let other : g.cs ≢ 0x07 = ground (arith, outside) in
          let (s', ran, left) =
            int_herr_report-halts fuel (message h) esp g s (message-IsForward h) name other in
          inr (other, s', rw (handle, loud, ran) refl, left)
    ]
