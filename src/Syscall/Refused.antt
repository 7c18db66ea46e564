-- ===== src/Syscall/Refused.antt =====
-- The calls that are refused: pointers behind the memory of the process, and unknown numbers.
use acky.Base.{
  ℕ, ◌<◌, ◌≡◌, refl, arith, leb, true, false, some, ◌||◌, not, ◌==◌, if◌then◌else◌, Bool,
}
use acky.Syscall.{System, Environment, Reply, sret_error, caller, is_invalid, sc_get_u_input}
use acky.Syscall.Tasks.{sc_spawn_proc, sc_get_proc_info, sc_msg, sc_msg_send, sc_msg_pop}
use acky.Syscall.Files.{sc_load_file, sc_get_file_info}
use acky.Syscall.Screen.{sc_graphics, owner_graphics, other_graphics, is_drawing}
use acky.Syscall.Dispatch.{sys_call}

-- Which register of a call is an address in the memory of the process. Any graphics call of a process that does
-- not own the screen takes one, also the calls 0, 3 and 6, which take none from the owner.
pub data Pointer (s : System) (eax ebx ecx p : ℕ) : Type 0 where
  line_buffer : eax ≡ 1 → ebx ≡ p → Pointer s eax ebx ecx p
  program_path : eax ≡ 2 → ebx ≡ p → Pointer s eax ebx ecx p
  process_info : eax ≡ 7 → ebx ≡ p → Pointer s eax ebx ecx p
  sent_message : eax ≡ 11 → ebx ≡ 0 → ecx ≡ p → Pointer s eax ebx ecx p
  popped_message : eax ≡ 11 → ebx ≡ 1 → ecx ≡ p → Pointer s eax ebx ecx p
  drawn_shape : eax ≡ 13 → is_drawing ebx ≡ true → ecx ≡ p → Pointer s eax ebx ecx p
  asked_of_owner :
      eax ≡ 13
      → ((caller s).pid == s.owner_pid || not s.owner_set) ≡ false
      → ecx ≡ p
      → Pointer s eax ebx ecx p
  file_path : eax ≡ 14 → ebx ≡ p → Pointer s eax ebx ecx p
  file_buffer : eax ≡ 14 → ecx ≡ p → Pointer s eax ebx ecx p
  info_path : eax ≡ 15 → ebx ≡ p → Pointer s eax ebx ecx p
  file_info : eax ≡ 15 → ecx ≡ p → Pointer s eax ebx ecx p

or_true : (b : Bool) → b || true ≡ true
or_true b = ground arith

not_control :
    (ebx : ℕ)
    → is_drawing ebx ≡ true
    → ((ebx == 0) ≡ false) × ((ebx == 3) ≡ false) × ((ebx == 6) ≡ false)
not_control ebx h = ground arith

if_same {ℓ} : {A : Type ℓ} (b : Bool) (a : A) → (if b then a else a) ≡ a
if_same true a = refl
if_same false a = refl

module _ (fuel : ℕ) (env : Environment) (s : System) (p : ℕ) (wild : is_invalid s p ≡ true) where
  line_refused : (ecx : ℕ) → sc_get_u_input p ecx s ≡ Reply.returned sret_error s
  unfolding sc_get_u_input
  line_refused ecx = rw wild refl

  path_refused : sc_spawn_proc fuel env p s ≡ some (Reply.returned sret_error s)
  unfolding sc_spawn_proc
  path_refused = rw wild refl

  info_refused : (ecx : ℕ) → sc_get_proc_info p ecx s ≡ Reply.returned sret_error s
  unfolding sc_get_proc_info
  info_refused ecx = rw wild refl

  send_refused : (edx : ℕ) → sc_msg 0 p edx s ≡ Reply.returned sret_error s
  unfolding sc_msg sc_msg_send
  send_refused edx = rw wild refl

  pop_refused : (edx : ℕ) → sc_msg 1 p edx s ≡ Reply.returned sret_error s
  unfolding sc_msg sc_msg_pop
  pop_refused edx = rw wild refl

  load_path_refused : (ecx : ℕ) → sc_load_file fuel env p ecx s ≡ some (Reply.returned sret_error s)
  unfolding sc_load_file
  load_path_refused ecx = rw wild refl

  load_buffer_refused :
      (ebx : ℕ) → sc_load_file fuel env ebx p s ≡ some (Reply.returned sret_error s)
  unfolding sc_load_file
  load_buffer_refused ebx = rw (wild, or_true (is_invalid s ebx)) refl

  file_path_refused :
      (ecx : ℕ) → sc_get_file_info fuel env p ecx s ≡ some (Reply.returned sret_error s)
  unfolding sc_get_file_info
  file_path_refused ecx = rw wild refl

  file_info_refused :
      (ebx : ℕ) → sc_get_file_info fuel env ebx p s ≡ some (Reply.returned sret_error s)
  unfolding sc_get_file_info
  file_info_refused ebx = rw (wild, or_true (is_invalid s ebx)) refl

  le_of_wild : leb (caller s).mem_size p ≡ true
  le_of_wild = ground (arith, wild)

  drawing_refused :
      (ebx : ℕ)
      → is_drawing ebx ≡ true
      → sc_graphics fuel env ebx p s ≡ some (Reply.returned sret_error s)
  unfolding sc_graphics owner_graphics other_graphics
  drawing_refused ebx drawing =
      let (n0, n3, n6) = not_control ebx drawing in
      rw (n0, n3, n6, drawing, le_of_wild)
        (if_same ((caller s).pid == s.owner_pid || not s.owner_set) _)

  asking_refused :
      (ebx : ℕ)
      → ((caller s).pid == s.owner_pid || not s.owner_set) ≡ false
      → sc_graphics fuel env ebx p s ≡ some (Reply.returned sret_error s)
  unfolding sc_graphics other_graphics
  asking_refused ebx other = rw (sc_graphics, other, le_of_wild) refl

-- A call whose pointer, in the register that the call takes it from, lies behind the memory of the
-- process returns SRET_ERROR and changes nothing, whatever the other registers hold.
pub sys_call-refused :
    (fuel : ℕ) (env : Environment) (eax ebx ecx edx p : ℕ) (s : System)
    → Pointer s eax ebx ecx p
    → (caller s).mem_size < p
    → sys_call fuel env (record { eax = eax; ebx = ebx; ecx = ecx; edx = edx }) s
      ≡ some (Reply.returned sret_error s)
unfolding sys_call
sys_call-refused fuel env eax ebx ecx edx p s pointer behind =
    let wild : is_invalid s p ≡ true = ground arith in
    elim pointer [
      | line_buffer e b ↦ rw (e, b, line_refused fuel env s p wild ecx) refl
      | program_path e b ↦ rw (e, b, path_refused fuel env s p wild) refl
      | process_info e b ↦ rw (e, b, info_refused fuel env s p wild ecx) refl
      | sent_message e b c ↦ rw (e, b, c, send_refused fuel env s p wild edx) refl
      | popped_message e b c ↦ rw (e, b, c, pop_refused fuel env s p wild edx) refl
      | drawn_shape e d c ↦ rw (e, c, drawing_refused fuel env s p wild ebx d) refl
      | asked_of_owner e o c ↦ rw (e, c, asking_refused fuel env s p wild ebx o) refl
      | file_path e b ↦ rw (e, b, load_path_refused fuel env s p wild ecx) refl
      | file_buffer e c ↦ rw (e, c, load_buffer_refused fuel env s p wild ebx) refl
      | info_path e b ↦ rw (e, b, file_path_refused fuel env s p wild ecx) refl
      | file_info e c ↦ rw (e, c, file_info_refused fuel env s p wild ebx) refl
    ]
