-- ===== src/UserLib/Window.antt =====
-- What `createWindow` of the library asks the owner of the screen for.
use acky.Base.{
  ℕ, zero, suc, ◌+◌, ◌*◌, ◌/◌, ◌%◌, ◌^◌, ◌<◌, ◌≤◌, ◌≡◌, update, refl, ◌∙◌, ap, length, arith, u32,
  add32, ◌==◌, leb, ◌||◌, not, Bool-cases, Option-cases, ◌-◌, inl, inr, some, false, List, [], ◌∷◌,
}
use acky.Ram.{Ram}
use acky.Process.{
  Kernel, ProcMsg, process_msg_queue_size, find_pid, get_process_index_from_pid,
  send_message_to_process,
}
use acky.Fs.{text_at}
use acky.Fs.Text.{text_at-until}
use acky.Process.Sending.{queued}
use acky.Syscall.{System, Environment, Reply, sret_success, caller, ram_of, with_ram, user_address}
use acky.Syscall.Bytes.{store_bytes, bytes_at, over}
use acky.Syscall.Mail.{bytes_at-store_bytes}
use acky.Syscall.Screen.{sc_graphics, other_graphics, request}
use acky.Syscall.Dispatch.{sys_call}
use acky.Wm.Request.{WindowDesc}
use acky.UserLib.{memcpy, window_bytes, create_window}
use acky.UserLib.Drawn.{nth}

-- `(windowDesc *)msg.msg`. The name is read up to a NUL, by `strcpy`; a message ends behind 50 bytes, and what
-- lies behind it is not modelled.
abbrev pub window_desc_at : List ℕ → WindowDesc
window_desc_at msg =
    let word = λ (i : ℕ). nth i msg + nth (i + 1) msg * 2 ^ 8 in
    record {
      x = word 4;
      y = word 6;
      width = word 8;
      height = word 10;
      name = text_at (λ i. nth i msg) 12 38;
    }

nth-over :
    (bs old : List ℕ) (k : ℕ) → k < length bs → k < length old → nth k (over bs old) ≡ nth k bs
unfolding over
nth-over [] old k h h' = absurd (omega (arith, h))
nth-over (b ∷ bs) [] k h h' = absurd (omega (arith, h'))
nth-over (b ∷ bs) (c ∷ cs) zero h h' = refl
nth-over (b ∷ bs) (c ∷ cs) (suc k) h h' = nth-over bs cs k (omega (arith, h)) (omega (arith, h'))

nth-memcpy : (src : ℕ → ℕ) (i n k : ℕ) → k < n → nth k (memcpy src i n) ≡ src (i + k)
nth-memcpy src i zero k h = absurd (omega (arith, h))
nth-memcpy src i (suc n) zero h = ap src (omega arith)
nth-memcpy src i (suc n) (suc k) h =
    nth-memcpy src (i + 1) n k (omega (arith, h)) ∙ ap src (omega arith)

-- The description of a window in its bytes.
abbrev pub described : (x y width height : ℕ) → (name : ℕ → ℕ) → WindowDesc
described x y width height name = record {
  x = x % 2 ^ 16;
  y = y % 2 ^ 16;
  width = width % 2 ^ 16;
  height = height % 2 ^ 16;
  name = text_at name 0 20;
}

abbrev asked : (x y width height : ℕ) → (name : ℕ → ℕ) → List ℕ
asked = window_bytes (b'C' ∷ b'W' ∷ b'I' ∷ b'N' ∷ [])

asked-desc :
    (x y width height : ℕ) (name : ℕ → ℕ) (old : List ℕ)
    → 32 ≤ length old
    → (n : ℕ) → n < 20
    → name n ≡ 0
    → window_desc_at (over (asked x y width height name) old) ≡ described x y width height name
asked-desc x y width height name old long n short end =
    let bs = asked x y width height name in
    let at : (k : ℕ) → k < 32 → nth k (over bs old) ≡ nth k bs =
      λ k h. nth-over bs old k h (omega (arith, h, long)) in
    let wide : (v : ℕ) → v % 2 ^ 8 + v / 2 ^ 8 % 2 ^ 8 * 2 ^ 8 ≡ v % 2 ^ 16 = λ v. omega arith in
    let named : text_at (λ i. nth i (over bs old)) 12 38 ≡ text_at name 0 20 =
      text_at-until (λ i. nth i (over bs old)) name 12 0 n 38 20 (omega (arith, short)) short
        (λ k h.
          let twelve : 12 + k
              ≡ suc (suc (suc (suc (suc (suc (suc (suc (suc (suc (suc (suc k))))))))))) =
            omega arith in
          at (12 + k) (omega (arith, h, short))
          ∙ ap (λ (i : ℕ). nth i bs) twelve
          ∙ nth-memcpy name 0 20 k (omega (arith, h, short)))
        (ap name (omega arith) ∙ end) in
    rw
      (
        named,
        at 4 (omega arith),
        at 5 (omega arith),
        at 6 (omega arith),
        at 7 (omega arith),
        at 8 (omega arith),
        at 9 (omega arith),
        at 10 (omega arith),
        at 11 (omega arith),
        wide x,
        wide y,
        wide width,
        wide height,
      )
      refl

abbrev behind_4 : List ℕ → List ℕ
behind_4 (a ∷ b ∷ c ∷ d ∷ rest) = rest
behind_4 bs = []

stored_window :
    (m : Ram) (a c0 c1 c2 c3 x y width height : ℕ) (name : ℕ → ℕ)
    → a + 32 < u32
    → request (store_bytes m a (window_bytes (c0 ∷ c1 ∷ c2 ∷ c3 ∷ []) x y width height name)) 0 a
      ≡ some (asked x y width height name)
unfolding request bytes_at
stored_window m a c0 c1 c2 c3 x y width height name h =
    let bs = window_bytes (c0 ∷ c1 ∷ c2 ∷ c3 ∷ []) x y width height name in
    let m' = store_bytes m a bs in
    let fourth : add32 a 4 ≡ add32 (add32 (add32 (add32 a 1) 1) 1) 1 = omega (arith, h) in
    let read : bytes_at m' a 32 ≡ bs = bytes_at-store_bytes m a bs h in
    let rest : bytes_at m' (add32 a 4) 28 ≡ behind_4 bs =
      ap (λ (i : ℕ). bytes_at m' i 28) fourth ∙ ap behind_4 read in
    ap (λ (cs : List ℕ). some (b'C' ∷ b'W' ∷ b'I' ∷ b'N' ∷ cs)) rest

-- A message finds the same queues whatever the memory holds.
send_table :
    (k : Kernel) (m : Ram) (pid : ℕ) (msg : ProcMsg)
    → (send_message_to_process
        (record k { memory = record k.memory { ram = m } })
        pid
        msg).2.processes
      ≡ (send_message_to_process k pid msg).2.processes
unfolding send_message_to_process get_process_index_from_pid
send_table k m pid msg = elim (Option-cases (find_pid k.processes pid 1 (k.process_count - 1))) [
  | inl unknown ↦ rw (send_message_to_process, unknown) refl
  | inr (idx, found) ↦
      elim (Bool-cases (leb process_msg_queue_size (k.processes idx).ipc_queue_size)) [
        | inl full ↦ rw (send_message_to_process, found, full) refl
        | inr room ↦ rw (send_message_to_process, found, room) refl
      ]
]

delivered :
    (k : Kernel) (pid idx : ℕ) (msg : ProcMsg)
    → get_process_index_from_pid k pid ≡ some idx
    → (k.processes idx).ipc_queue_size < process_msg_queue_size
    → (send_message_to_process k pid msg).2.processes
      ≡ update k.processes idx (
          queued
            (k.processes idx)
            (record msg { from_pid = (k.processes k.scheduler_process_at).pid }))
unfolding send_message_to_process
delivered k pid idx msg found room =
    let free : leb process_msg_queue_size (k.processes idx).ipc_queue_size ≡ false =
      ground (arith, room) in
    rw (send_message_to_process, found, free) refl

-- When another process owns the screen, is in the table and has room in its queue, and the memory of the caller
-- ends 32 bytes below the end of the address space and holds the start of the structure, `createWindow` of
-- the library succeeds and puts one message behind those in the queue of the owner, and changes nothing else in the table.
-- The message comes from the caller, and the owner reads from it the place, the sizes and the name that the
-- program gave: each number cut to 16 bits, and the whole name if its NUL is one of its first 20
-- bytes.
pub create_window-asks :
    (fuel : ℕ) (env : Environment) (c0 c1 c2 c3 at x y width height : ℕ) (name : ℕ → ℕ) (n idx : ℕ)
    (s : System)
    → (((caller s).pid == s.owner_pid) || not s.owner_set) ≡ false
    → get_process_index_from_pid s.kernel s.owner_pid ≡ some idx
    → (s.kernel.processes idx).ipc_queue_size < process_msg_queue_size
    → at < (caller s).mem_size
    → (caller s).mem_start + (caller s).mem_size + 32 < u32
    → 32 ≤ length env.stale_msg
    → n < 20
    → name n ≡ 0
    → (s' : System) × (msg : ProcMsg) × (create_window fuel env
          (c0 ∷ c1 ∷ c2 ∷ c3 ∷ [])
          at
          x
          y
          width
          height
          name
          s
        ≡ some (Reply.returned sret_success s'))
      × (s'.kernel.processes ≡ update s.kernel.processes idx (queued (s.kernel.processes idx) msg))
      × (msg.from_pid ≡ (caller s).pid)
      × (window_desc_at msg.msg ≡ described x y width height name)
unfolding create_window sys_call sc_graphics other_graphics
create_window-asks fuel env c0 c1 c2 c3 at x y width height name n idx s other found room inside
      fits long short end =
    let info = user_address s at in
    let m =
      store_bytes (ram_of s) info (window_bytes (c0 ∷ c1 ∷ c2 ∷ c3 ∷ []) x y width height name) in
    let s₁ = with_ram s m in
    let valid : leb (caller s).mem_size at ≡ false = ground arith in
    let low : info + 32 < u32 = omega (arith, inside, fits) in
    let stored = stored_window (ram_of s) info c0 c1 c2 c3 x y width height name low in
    let msg : ProcMsg = record {
      from_pid = (caller s).pid;
      msg = over (asked x y width height name) env.stale_msg;
    } in
    let ran : sc_graphics fuel env 0 at s₁
        ≡ some (
            Reply.returned sret_success
              (record s₁ { kernel = (send_message_to_process s₁.kernel s.owner_pid msg).2 })) =
      rw (sc_graphics, other, other_graphics, valid, stored) refl in
    (
      record s₁ { kernel = (send_message_to_process s₁.kernel s.owner_pid msg).2 },
      msg,
      ran,
      send_table s.kernel m s.owner_pid msg ∙ delivered s.kernel s.owner_pid idx msg found room,
      refl,
      asked-desc x y width height name env.stale_msg long n short end,
    )
