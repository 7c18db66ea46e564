-- ===== src/World/Interrupts.antt =====
-- The mouse interrupt and the timer interrupt keep every process in its place.
use acky.Base.{
  ℕ, ◌≡◌, refl, ◌∙◌, Option, some, none, List, Bool, true, false, ◌==◌, if◌then◌else◌, update,
  add32,
}
use acky.Process.{
  GeneralRegs, is_outside, Kernel, Process, get_next_process, get_current_process_idx, minus_one,
  set_process_pc,
}
use acky.Process.Schedule.{get_next_process_inversion}
use acky.Mouse.{Mouse, end_packet, ps2_mouse_isr}
use acky.Pit.{Frame, Pushed, Machine, save_process, switch_to, trampoline_setup, pit_isr}
use acky.World.Places.{
  SamePlace, SamePlaces, SamePlace-refl, SamePlaces-refl, SamePlace-update,
  send_message_to_process-SamePlaces,
}
use acky.World.Keyboard.{Every, Every-if, Every-some}

SamePlaces-if :
    (c : Bool) (k a b : Kernel)
    → SamePlaces k a
    → SamePlaces k b
    → SamePlaces k (if c then a else b)
SamePlaces-if true k a b x y = x
SamePlaces-if false k a b x y = y

end_packet-SamePlaces :
    (stale : List ℕ) (byte : ℕ) (m : Mouse) → SamePlaces m.kernel (end_packet stale byte m).kernel
unfolding end_packet
end_packet-SamePlaces stale byte m =
    SamePlaces-if (m.owner_pid == 0) m.kernel m.kernel _ (SamePlaces-refl m.kernel)
      (send_message_to_process-SamePlaces m.kernel m.owner_pid _)

pub ps2_mouse_isr-SamePlaces :
    (stale : List ℕ) (byte : ℕ) (m : Mouse)
    → SamePlaces m.kernel (ps2_mouse_isr stale byte m).kernel
unfolding ps2_mouse_isr
ps2_mouse_isr-SamePlaces stale byte m =
    let P = λ (n : Mouse). SamePlaces m.kernel n.kernel in
    let stays = SamePlaces-refl m.kernel in
    Every-if P (m.mouse_cycle == 0) _ _ stays (
      Every-if P (m.mouse_cycle == 1) _ _ stays
        (Every-if P (m.mouse_cycle == 2) _ _ (end_packet-SamePlaces stale byte m) stays))

SamePlaces-trans : (k l m : Kernel) → SamePlaces k l → SamePlaces l m → SamePlaces k m
SamePlaces-trans k l m x y = record {
  list = y.list ∙ x.list;
  index = y.index ∙ x.index;
  count = y.count ∙ x.count;
  places = λ j. record {
    start = (y.places j).start ∙ (x.places j).start;
    size = (y.places j).size ∙ (x.places j).size;
    queue = λ h. (y.places j).queue ((x.places j).queue h);
  };
}

-- A store to one process that leaves it in its place.
SamePlaces-store :
    (k : Kernel) (i : ℕ) (p : Process)
    → SamePlace (k.processes i) p
    → SamePlaces k (record k { processes = update k.processes i p })
SamePlaces-store k i p same = record {
  list = refl;
  index = refl;
  count = refl;
  places = λ j. SamePlace-update k.processes i j p same;
}

save_process-SamePlaces :
    (k : Kernel) (current : ℕ) (pushed : Pushed) (frame : Frame)
    → SamePlaces k (save_process k current pushed frame)
unfolding save_process set_process_pc
save_process-SamePlaces k current pushed frame =
    let p = k.processes current in
    let regs : GeneralRegs = record p.regs {
      eax = pushed.eax;
      edx = pushed.edx;
      ecx = pushed.ecx;
      ebx = pushed.ebx;
      edi = pushed.edi;
      esi = pushed.esi;
      esp = frame.sp;
      flags = frame.flags;
    } in
    let l = record k { processes = update k.processes current (record p { regs = regs }) } in
    let stored =
      SamePlaces-store k current (record p { regs = regs })
        (record { start = refl; size = refl; queue = λ h. h }) in
    let q = l.processes current in
    SamePlaces-if (is_outside l current) k l _ stored (
      SamePlaces-trans k l _ stored (
        SamePlaces-store l current (record q { pc_loc = frame.ip })
          (record { start = refl; size = refl; queue = λ h. h })))

picks-SamePlaces : (k : Kernel) (next : ℕ) → SamePlaces k (record k { scheduler_process_at = next })
picks-SamePlaces k next = record {
  list = refl;
  index = refl;
  count = refl;
  places = λ j. SamePlace-refl (k.processes j);
}

ticks-SamePlaces : (k l : Kernel) (t : ℕ) → SamePlaces k l → SamePlaces k (record l { tick = t })
ticks-SamePlaces k l t same = record {
  list = same.list;
  index = same.index;
  count = same.count;
  places = same.places;
}

switch_to-SamePlaces :
    (m : Machine) (pushed : Pushed) (current next : ℕ) (k : Kernel)
    → SamePlaces k (switch_to m pushed current next k).kernel
unfolding switch_to
switch_to-SamePlaces m pushed current next k =
    SamePlaces-if m.save_regs k _ k (save_process-SamePlaces k current pushed m.frame)
      (SamePlaces-refl k)

pub pit_isr-SamePlaces :
    (fuel trampoline cpu_flags : ℕ) (pushed : Pushed) (m n : Machine)
    → pit_isr fuel trampoline cpu_flags pushed m ≡ some n
    → SamePlaces m.kernel n.kernel
unfolding pit_isr trampoline_setup
pit_isr-SamePlaces fuel trampoline cpu_flags pushed m n e = Every-some P _ n ticked e
  where
    P : Machine → Type 0
    P o = SamePlaces m.kernel o.kernel

    current : ℕ
    current = get_current_process_idx m.kernel

    preempt : Option (ℕ × Kernel) → Option Machine
    preempt none = none
    preempt (some (next, k)) =
        let switched =
          if next == minus_one
          then record m { kernel = k }
          else switch_to m pushed current next k in
        let n = trampoline_setup trampoline cpu_flags switched in
        some (record n { kernel = record n.kernel { tick = add32 n.kernel.tick 1 } })

    go : (o : Option (ℕ × Kernel)) → get_next_process fuel m.kernel ≡ o → Every P (preempt o)
    go none spins = tt
    go (some (next, k)) picked =
        let moved = get_next_process_inversion fuel m.kernel next k picked in
        let same : SamePlaces m.kernel k = rw moved (picks-SamePlaces m.kernel next) in
        let to = switch_to m pushed current next k in
        let ran = if next == minus_one then record m { kernel = k } else to in
        let switched =
          Every-if P (next == minus_one) (record m { kernel = k }) to same
            (SamePlaces-trans m.kernel k to.kernel same
              (switch_to-SamePlaces m pushed current next k)) in
        ticks-SamePlaces m.kernel ran.kernel (add32 ran.kernel.tick 1) switched

    ticked : Every P (pit_isr fuel trampoline cpu_flags pushed m)
    ticked =
        Every-if (Every P) m.can_preempt _ _ (go (get_next_process fuel m.kernel) refl)
          (ticks-SamePlaces m.kernel m.kernel (add32 m.kernel.tick 1) (SamePlaces-refl m.kernel))
