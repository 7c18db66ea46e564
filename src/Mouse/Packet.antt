-- ===== src/Mouse/Packet.antt =====
-- What a stream of bytes does to the packet that the handler puts together.
use acky.Base.{
  ℕ, ◌/◌, ◌%◌, ◌<◌, ◌≡◌, ◌≢◌, refl, arith, if◌then◌else◌, ◌==◌, update, some, false, List, [], ◌∷◌,
  ◌++◌, ◌∙◌,
}
use acky.Process.{
  ProcMsg, get_process_index_from_pid, send_message_to_process, process_msg_queue_size,
}
use acky.Process.Queue.{Delivered, send_message_to_process-Delivered}
use acky.Mouse.{Mouse, mouse_mov_msg, ps2_mouse_isr}

-- The handler for each of the bytes in turn.
abbrev pub ps2_mouse_isr_all : List ℕ → List ℕ → Mouse → Mouse
ps2_mouse_isr_all stale [] m = m
ps2_mouse_isr_all stale (b ∷ bs) m = ps2_mouse_isr_all stale bs (ps2_mouse_isr stale b m)

-- Bytes without bit 3 in front of a packet.
abbrev pub HasNoStart : List ℕ → Type 0
HasNoStart [] = Unit
HasNoStart (b ∷ bs) = (b / 8 % 2 ≡ 0) × HasNoStart bs

-- The state in which a packet may start; only the first byte was written.
pub record Waits (m m' : Mouse) : Type 0 where
  pub start : m'.mouse_cycle ≡ 0
  pub same_kernel : m'.kernel ≡ m.kernel
  pub same_owner : m'.owner_pid ≡ m.owner_pid

skip-Waits :
    (stale bs : List ℕ) (m : Mouse)
    → m.mouse_cycle ≡ 0
    → HasNoStart bs
    → Waits m (ps2_mouse_isr_all stale bs m)
unfolding ps2_mouse_isr
skip-Waits stale [] m start none_starts = record {
  start = start;
  same_kernel = refl;
  same_owner = refl;
}
skip-Waits stale (b ∷ bs) m start (low, rest) =
    let m₁ = ps2_mouse_isr stale b m in
    let w = skip-Waits stale bs m₁ (ground arith) rest in
    record {
      start = w.start;
      same_kernel = w.same_kernel ∙ ground arith;
      same_owner = w.same_owner ∙ ground arith;
    }

-- Three bytes, the first of them with bit 3.
three_bytes :
    (stale : List ℕ) (a b c : ℕ) (m : Mouse)
    → m.mouse_cycle ≡ 0
    → a / 8 % 2 ≢ 0
    → let m' = ps2_mouse_isr_all stale (a ∷ b ∷ c ∷ []) m in
      (m'.mouse_cycle ≡ 0)
      × (m'.mouse_x ≡ b)
      × (m'.mouse_y ≡ c)
      × (m'.kernel ≡ (
          if m.owner_pid == 0
          then m.kernel
          else (send_message_to_process m.kernel m.owner_pid
              (record { from_pid = 0; msg = mouse_mov_msg b c a stale })).2))
unfolding ps2_mouse_isr
three_bytes stale a b c m start first =
    let e : ps2_mouse_isr stale a m
        ≡ record m { mouse_byte = update m.mouse_byte 0 a; mouse_cycle = 1 } =
      ground arith in
    rw e (refl, refl, refl, refl)

ps2_mouse_isr_all-append :
    (stale bs cs : List ℕ) (m : Mouse)
    → ps2_mouse_isr_all stale (bs ++ cs) m
      ≡ ps2_mouse_isr_all stale cs (ps2_mouse_isr_all stale bs m)
ps2_mouse_isr_all-append stale [] cs m = refl
ps2_mouse_isr_all-append stale (b ∷ bs) cs m =
    ps2_mouse_isr_all-append stale bs cs (ps2_mouse_isr stale b m)

-- Between two packets, bytes without bit 3 are passed over, and the next three bytes are one packet:
-- where the owner of the screen is a process whose queue is not full, exactly one message, with the
-- movement and the status, is appended to that queue, and no other process changes. The handler then
-- waits for the next packet.
pub ps2_mouse_isr-Delivered :
    (stale noise : List ℕ) (a b c idx : ℕ) (m : Mouse)
    → m.mouse_cycle ≡ 0
    → HasNoStart noise
    → a / 8 % 2 ≢ 0
    → m.owner_pid ≢ 0
    → get_process_index_from_pid m.kernel m.owner_pid ≡ some idx
    → (m.kernel.processes idx).ipc_queue_size < process_msg_queue_size
    → let m' = ps2_mouse_isr_all stale (noise ++ (a ∷ b ∷ c ∷ [])) m in
      (m'.mouse_cycle ≡ 0)
      × Delivered m.kernel idx (record { from_pid = 0; msg = mouse_mov_msg b c a stale }) m'.kernel
ps2_mouse_isr-Delivered stale noise a b c idx m start low first owned found room =
    let m₁ = ps2_mouse_isr_all stale noise m in
    let w = skip-Waits stale noise m start low in
    let (cycle, x, y, sent) = three_bytes stale a b c m₁ w.start first in
    let msg : ProcMsg = record { from_pid = 0; msg = mouse_mov_msg b c a stale } in
    let (k', run, delivered) =
      send_message_to_process-Delivered m.kernel m.owner_pid msg idx found room in
    let owner : (m₁.owner_pid == 0) ≡ false = ground (arith, w.same_owner) in
    let same : (ps2_mouse_isr_all stale (a ∷ b ∷ c ∷ []) m₁).kernel ≡ k' =
      sent ∙ rw (owner, w.same_kernel, w.same_owner, run) refl in
    rw (ps2_mouse_isr_all-append stale noise (a ∷ b ∷ c ∷ []) m) (cycle, rw same delivered)

-- While no process owns the screen, the handler never changes the process table, whatever it reads.
ps2_mouse_isr_unowned :
    (stale bs : List ℕ) (m : Mouse)
    → m.owner_pid ≡ 0
    → (ps2_mouse_isr_all stale bs m).kernel ≡ m.kernel
unfolding ps2_mouse_isr
ps2_mouse_isr_unowned stale [] m none_owns = refl
ps2_mouse_isr_unowned stale (b ∷ bs) m none_owns =
    ps2_mouse_isr_unowned stale bs (ps2_mouse_isr stale b m) (ground arith) ∙ ground arith
