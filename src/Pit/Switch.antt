-- ===== src/Pit/Switch.antt =====
-- What one timer interrupt saves and loads, and what a process finds when it runs again.
use acky.Base.{
  ℕ, ◌<◌, ◌≡◌, ◌≢◌, refl, arith, if◌then◌else◌, ◌==◌, add32, u32, Bool-cases, inl, inr, some, true,
  ap, ◌∙◌, sym,
}
use acky.Gdt.{Descriptors, set_ldt_entry}
use acky.Gdt.Decode.{Describes, set_ldt_entry-Describes}
use acky.Process.{Process, Kernel, minus_one, stack_size, get_next_process, get_current_process_idx}
use acky.Process.Schedule.{get_next_process_inversion}
use acky.Pit.{
  Frame, Pushed, ProcRegs, Machine, clear_bit9, save_process, set_process_ldt, restore_process,
  pit_isr,
}

-- The entry of a process that was interrupted: the pushed registers, the stack pointer, the flags
-- and the place of the interruption are stored, the rest is as it was.
abbrev pub interrupted : Process → Pushed → Frame → Process
interrupted p pushed frame = record p {
  regs = record p.regs {
    eax = pushed.eax;
    edx = pushed.edx;
    ecx = pushed.ecx;
    ebx = pushed.ebx;
    edi = pushed.edi;
    esi = pushed.esi;
    esp = frame.sp;
    flags = frame.flags;
  };
  pc_loc = frame.ip;
}

-- What one switch leaves behind.
pub record Switched (m : Machine) (pushed : Pushed) (next : ℕ) (m' : Machine) : Type 0 where
  pub picked : m'.kernel.scheduler_process_at ≡ next
  pub saved :
      m'.kernel.processes m.kernel.scheduler_process_at
      ≡ interrupted (m.kernel.processes m.kernel.scheduler_process_at) pushed m.frame
  pub others :
      (j : ℕ) → j ≢ m.kernel.scheduler_process_at → m'.kernel.processes j ≡ m.kernel.processes j
  pub loaded : m'.proc_regs ≡ restore_process (m'.kernel.processes next)
  pub segments : m'.current_ldt ≡ set_process_ldt m.current_ldt (m'.kernel.processes next)
  pub ticked : m'.kernel.tick ≡ add32 m.kernel.tick 1
  pub will_save : m'.save_regs ≡ true

-- The table after the stores.
save_process-processes :
    (k : Kernel) (c : ℕ) (pushed : Pushed) (frame : Frame) (j : ℕ)
    → c < k.process_count
    → c < 0x80000000
    → (save_process k c pushed frame).processes j
      ≡ (if c == j then interrupted (k.processes c) pushed frame else k.processes j)
unfolding save_process
save_process-processes k c pushed frame j listed small = ground arith

-- Saving changes the table alone.
save_process-rest :
    (k : Kernel) (c : ℕ) (pushed : Pushed) (frame : Frame)
    → ((save_process k c pushed frame).scheduler_process_at ≡ k.scheduler_process_at)
      × ((save_process k c pushed frame).tick ≡ k.tick)
unfolding save_process
save_process-rest k c pushed frame = ground arith

-- A process of the table runs, its registers are to be saved, and the scheduler picks a process.
pub record Preempts (fuel : ℕ) (m : Machine) (next : ℕ) : Type 0 where
  pub on : m.can_preempt ≡ true
  pub save : m.save_regs ≡ true
  pub listed : m.kernel.scheduler_process_at < m.kernel.process_count
  pub small : m.kernel.scheduler_process_at < 0x80000000
  pub after : Kernel
  pub pick : get_next_process fuel m.kernel ≡ some (next, after)
  pub real : next ≢ minus_one

-- One interrupt in which a process is preempted.
pub pit_isr_lem :
    (fuel trampoline cpu_flags : ℕ) (pushed : Pushed) (m : Machine) (next : ℕ)
    → Preempts fuel m next
    → (m' : Machine) × (pit_isr fuel trampoline cpu_flags pushed m ≡ some m')
      × Switched m pushed next m'
unfolding pit_isr get_current_process_idx
pit_isr_lem fuel trampoline cpu_flags pushed m next w =
    let c = m.kernel.scheduler_process_at in
    let k = w.after in
    let moved = get_next_process_inversion fuel m.kernel next k w.pick in
    let saved = save_process k c pushed m.frame in
    let m' : Machine = record m {
      kernel = record saved { tick = add32 saved.tick 1 };
      current_ldt = set_process_ldt m.current_ldt (saved.processes next);
      proc_regs = restore_process (saved.processes next);
      save_regs = true;
      frame = record {
        ip = trampoline;
        flags = clear_bit9 cpu_flags;
        cs = 0x08;
        ss = 0x10;
        sp = 0x8000;
      };
    } in
    let rest = save_process-rest k c pushed m.frame in
    (
      m',
      ground arith,
      record {
        picked = ground arith;
        saved = ground (arith, save_process-processes k c pushed m.frame c);
        others = λ j ne. ground (arith, save_process-processes k c pushed m.frame j);
        loaded = refl;
        segments = refl;
        ticked = ground arith;
        will_save = refl;
      },
    )

-- The registers of a process, as the trampoline loads them.
abbrev pub registers_of : Process → ProcRegs
registers_of p = record {
  eax = p.regs.eax;
  ebx = p.regs.ebx;
  ecx = p.regs.ecx;
  edx = p.regs.edx;
  esi = p.regs.esi;
  edi = p.regs.edi;
  esp = p.regs.esp;
  ebp = p.regs.ebp;
  flags = p.regs.flags;
  ip = p.pc_loc;
}

-- What the processor finds when the process starts to run: its registers, and as descriptors 0 and 1 a code
-- and a data segment at its memory.
pub record Prepared (p : Process) (ldt : Descriptors) (m' : Machine) : Type 0 where
  pub registers : m'.proc_regs ≡ registers_of p
  pub code : Describes (m'.current_ldt 0) p.mem_start (add32 p.mem_size stack_size) 0xFA 0xCF
  pub data_segment :
      Describes (m'.current_ldt 1) p.mem_start (add32 p.mem_size stack_size) 0xF2 0xCF
  pub rest : (j : ℕ) → j ≢ 0 → j ≢ 1 → m'.current_ldt j ≡ ldt j

set_process_ldt-Describes :
    (ldt : Descriptors) (p : Process)
    → p.mem_start < u32
    → Describes (set_process_ldt ldt p 0) p.mem_start (add32 p.mem_size stack_size) 0xFA 0xCF
      × Describes (set_process_ldt ldt p 1) p.mem_start (add32 p.mem_size stack_size) 0xF2 0xCF
      × ((j : ℕ) → j ≢ 0 → j ≢ 1 → set_process_ldt ldt p j ≡ ldt j)
unfolding set_process_ldt
set_process_ldt-Describes ldt p low =
    let size = add32 p.mem_size stack_size in
    let first = set_ldt_entry ldt 0 p.mem_start size 0xFA 0xCF in
    let (code, kept) = set_ldt_entry-Describes ldt 0 p.mem_start size 0xFA 0xCF low (omega arith) in
    let (segment, kept') =
      set_ldt_entry-Describes first 1 p.mem_start size 0xF2 0xCF low (omega arith) in
    (rw (kept' 0 (omega arith)) code, segment, λ j no0 no1. kept' j no1 ∙ kept j no0)

-- When preemption is on, a process of the table runs whose registers are to be saved, and the scheduler picks one
-- whose memory starts in the 32-bit address space, a
-- timer interrupt stores the registers of the one that ran, but for EBP, and changes no other entry. The
-- registers that are loaded next are those of the one that was picked, and the processor reads from
-- the first two local descriptors a code and a data segment that start at its memory.
pub pit_isr-Switched :
    (fuel trampoline cpu_flags : ℕ) (pushed : Pushed) (m : Machine) (next : ℕ)
    → Preempts fuel m next
    → (m.kernel.processes next).mem_start < u32
    → (m' : Machine) × (pit_isr fuel trampoline cpu_flags pushed m ≡ some m')
      × Switched m pushed next m'
      × Prepared (m'.kernel.processes next) m.current_ldt m'
unfolding restore_process
pit_isr-Switched fuel trampoline cpu_flags pushed m next w low =
    let c = m.kernel.scheduler_process_at in
    let (m', run, s) = pit_isr_lem fuel trampoline cpu_flags pushed m next w in
    let p = m'.kernel.processes next in
    let place : p.mem_start ≡ (m.kernel.processes next).mem_start = elim (Bool-cases (next == c)) [
      | inl same ↦
          let here : next ≡ c = ground (arith, same) in
          rw here (ap (λ (q : Process). q.mem_start) s.saved)
      | inr other ↦ ap (λ (q : Process). q.mem_start) (s.others next (ground (arith, other)))
    ] in
    let (code, segment, rest) =
      set_process_ldt-Describes m.current_ldt p (omega (arith, place, low)) in
    (
      m',
      run,
      s,
      record {
        registers = s.loaded;
        code = rw s.segments code;
        data_segment = rw s.segments segment;
        rest = λ j no0 no1. rw s.segments (rest j no0 no1);
      },
    )

-- A process that was preempted and whose entry has not changed since finds, when a later interrupt
-- picks it again in the place of another one, its registers, flags, stack pointer and place of
-- interruption as they were; but EBP holds what its entry held before, not what it was.
pub pit_isr_resume :
    (f₁ f₂ trampoline flags₁ flags₂ : ℕ) (pushed₁ pushed₂ : Pushed) (m₁ m₁' m₂ m₂' : Machine)
    (other : ℕ)
    → Preempts f₁ m₁ other
    → pit_isr f₁ trampoline flags₁ pushed₁ m₁ ≡ some m₁'
    → Preempts f₂ m₂ m₁.kernel.scheduler_process_at
    → m₂.kernel.scheduler_process_at ≢ m₁.kernel.scheduler_process_at
    → m₂.kernel.processes m₁.kernel.scheduler_process_at
      ≡ m₁'.kernel.processes m₁.kernel.scheduler_process_at
    → pit_isr f₂ trampoline flags₂ pushed₂ m₂ ≡ some m₂'
    → m₂'.proc_regs ≡ record {
      eax = pushed₁.eax;
      ebx = pushed₁.ebx;
      ecx = pushed₁.ecx;
      edx = pushed₁.edx;
      esi = pushed₁.esi;
      edi = pushed₁.edi;
      esp = m₁.frame.sp;
      ebp = (m₁.kernel.processes m₁.kernel.scheduler_process_at).regs.ebp;
      flags = m₁.frame.flags;
      ip = m₁.frame.ip;
    }
unfolding restore_process
pit_isr_resume f₁ f₂ trampoline flags₁ flags₂ pushed₁ pushed₂ m₁ m₁' m₂ m₂' other w₁ run₁ w₂ away
      same run₂ =
    let c = m₁.kernel.scheduler_process_at in
    let (a, ra, sa) = pit_isr_lem f₁ trampoline flags₁ pushed₁ m₁ other w₁ in
    let (b, rb, sb) = pit_isr_lem f₂ trampoline flags₂ pushed₂ m₂ c w₂ in
    let first : m₁' ≡ a = ground arith in
    let second : m₂' ≡ b = ground arith in
    let held : b.kernel.processes c ≡ interrupted (m₁.kernel.processes c) pushed₁ m₁.frame =
      sb.others c (λ e. away (sym e))
      ∙ same
      ∙ ap (λ (m : Machine). m.kernel.processes c) first
      ∙ sa.saved in
    rw second (sb.loaded ∙ ap restore_process held)
