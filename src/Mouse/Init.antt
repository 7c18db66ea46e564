-- ===== src/Mouse/Init.antt =====
-- Setting up the mouse in foki/ps2mouse.c. What the controller answers is an argument: the bytes of its
-- status port and those of its data port, each in order.
use acky.Base.{
  ℕ, zero, suc, ◌+◌, ◌*◌, ◌/◌, ◌%◌, ◌≤◌, ◌≡◌, refl, arith, if◌then◌else◌, ◌==◌, Bool-cases, inl,
  inr, Bool, List, ◌∷◌, bit_or,
}
use acky.Io.{PortWrite, outb}

pub record Answers : Type 0 where
  pub status : ℕ → ℕ
  pub bytes : ℕ → ℕ

-- How many answers were read of each, and the bytes sent, the last one first.
pub record Controller : Type 0 where
  pub statuses : ℕ
  pub reads : ℕ
  pub ports : List PortWrite

-- For 0 there must be something to read, otherwise room for a byte.
abbrev pub is_ready : (a_type : ℕ) → ℕ → Bool
is_ready a_type s = if a_type == 0 then s % 2 == 1 else s / 2 % 2 == 0

-- `while(_time_out--)`, from the answer `i` on: the number of the next answer.
unfoldable pub poll : (a_type left : ℕ) → (ℕ → ℕ) → ℕ → ℕ
poll a_type zero status i = i
poll a_type (suc left) status i =
    let rest = poll a_type left status (i + 1) in if is_ready a_type (status i) then i + 1 else rest

abbrev pub time_out : ℕ
time_out = 100000

unfoldable pub mouse_wait : ℕ → Answers → Controller → Controller
mouse_wait a_type a c = record c { statuses = poll a_type time_out a.status c.statuses }

abbrev pub send : (port value : ℕ) → Controller → Controller
send port value c = record c { ports = outb port value ∷ c.ports }

unfoldable pub mouse_write : ℕ → Answers → Controller → Controller
unfolding mouse_wait
mouse_write a_write a c = send 0x60 a_write (mouse_wait 1 a (send 0x64 0xD4 (mouse_wait 1 a c)))

-- The byte that is read, and the state.
unfoldable pub mouse_read : Answers → Controller → ℕ × Controller
unfolding mouse_wait
mouse_read a c = let c₁ = mouse_wait 0 a c in (a.bytes c₁.reads, record c₁ { reads = c₁.reads + 1 })

-- `mouseWrite(x); mouseRead();`
abbrev pub command : ℕ → Answers → Controller → Controller
command x a c = (mouse_read a (mouse_write x a c)).1

unfoldable pub init_ps2_mouse : Answers → Controller → Controller
unfolding mouse_wait mouse_write mouse_read
init_ps2_mouse a c =
    let c₁ = send 0x64 0xA8 (mouse_wait 1 a c) in
    let c₂ = mouse_wait 0 a (send 0x64 0x20 (mouse_wait 1 a c₁)) in
    let status = bit_or (a.bytes c₂.reads) 2 in
    let c₃ = record c₂ { reads = c₂.reads + 1 } in
    let c₄ = send 0x60 status (mouse_wait 1 a (send 0x64 0x60 (mouse_wait 1 a c₃))) in
    command 0xF4 a (command 200 a (command 0xF3 a (command 0xF6 a c₄)))

poll-bounds :
    (a_type left : ℕ) (status : ℕ → ℕ) (i : ℕ)
    → (i ≤ poll a_type left status i) × (poll a_type left status i ≤ i + left)
unfolding poll
poll-bounds a_type zero status i = (omega arith, omega arith)
poll-bounds a_type (suc left) status i =
    let (low, high) = poll-bounds a_type left status (i + 1) in
    elim (Bool-cases (is_ready a_type (status i))) [
      | inl over ↦ rw over (omega arith, omega arith)
      | inr more ↦ rw more (omega (arith, low), omega (arith, high))
    ]

-- One wait adds at most its readings.
waits :
    (a_type : ℕ) (status : ℕ → ℕ) (i from n : ℕ)
    → i ≤ from + n
    → poll a_type time_out status i ≤ from + (n + 100000)
waits a_type status i from n h =
    let (low, high) = poll-bounds a_type time_out status i in omega (arith, h, high)

-- Whatever the controller answers, the mouse's initialisation ends after at most 100000 readings of the
-- status for each of its 17 waits and after five of the data, and the bytes it sends are always the same,
-- but for the controller's own configuration byte, which it sends back with bit 1 set.
pub init_ps2_mouse-bounds :
    (a : Answers) (c : Controller)
    → ((init_ps2_mouse a c).statuses ≤ c.statuses + 17 * time_out)
      × ((init_ps2_mouse a c).reads ≡ c.reads + 5)
      × ((init_ps2_mouse a c).ports ≡ (
          outb 0x60 0xF4
          ∷ outb 0x64 0xD4
          ∷ outb 0x60 200
          ∷ outb 0x64 0xD4
          ∷ outb 0x60 0xF3
          ∷ outb 0x64 0xD4
          ∷ outb 0x60 0xF6
          ∷ outb 0x64 0xD4
          ∷ outb 0x60 (bit_or (a.bytes c.reads) 2)
          ∷ outb 0x64 0x60
          ∷ outb 0x64 0x20
          ∷ outb 0x64 0xA8
          ∷ c.ports))
unfolding init_ps2_mouse
init_ps2_mouse-bounds a c = (
  waits 0 a.status _ c.statuses 1600000 (
      waits 1 a.status _ c.statuses 1500000 (
        waits 1 a.status _ c.statuses 1400000 (
          waits 0 a.status _ c.statuses 1300000 (
            waits 1 a.status _ c.statuses 1200000 (
              waits 1 a.status _ c.statuses 1100000 (
                waits 0 a.status _ c.statuses 1000000 (
                  waits 1 a.status _ c.statuses 900000 (
                    waits 1 a.status _ c.statuses 800000 (
                      waits 0 a.status _ c.statuses 700000 (
                        waits 1 a.status _ c.statuses 600000 (
                          waits 1 a.status _ c.statuses 500000 (
                            waits 1 a.status _ c.statuses 400000 (
                              waits 1 a.status _ c.statuses 300000 (
                                waits 0 a.status _ c.statuses 200000 (
                                  waits 1 a.status _ c.statuses 100000
                                    (waits 1 a.status _ c.statuses 0 (omega arith))))))))))))))))),
  omega arith,
  refl,
)
