-- ===== src/Mouse.antt =====
-- The mouse interrupt of foki/ps2mouse.c. A byte of the port is an argument; a signed byte is its bit
-- pattern. The 40 bytes of the message that the handler does not write are what its stack held, an
-- argument. The words for the interrupt controllers and the segment registers are not kept.
pub mod Tests
pub mod Packet
pub mod Init
use acky.Base.{
  ℕ, ◌+◌, ◌/◌, ◌%◌, if◌then◌else◌, ◌==◌, update, Bool, true, false, not, List, [], ◌∷◌, ◌++◌,
}
use acky.Process.{ProcMsg, Kernel, send_message_to_process}

-- The globals of the handler, with `ownerPID` of foki/vga.c and the process table.
pub record Mouse : Type 0 where
  pub mouse_cycle : ℕ
  pub mouse_byte : ℕ → ℕ
  pub mouse_x : ℕ
  pub mouse_y : ℕ
  pub owner_pid : ℕ
  pub kernel : Kernel

-- `mouseMovMsg`: the signature with its NUL, the two movements and the status, and behind them the
-- rest of the 50 bytes.
abbrev pub mouse_mov_msg : (x y status : ℕ) → List ℕ → List ℕ
mouse_mov_msg x y status stale =
    b'M' ∷ b'O' ∷ b'U' ∷ b'M' ∷ b'O' ∷ b'V' ∷ 0 ∷ x ∷ y ∷ status ∷ stale

-- The third byte: the movement is taken over and sent to the owner of the screen.
unfoldable pub end_packet : List ℕ → ℕ → Mouse → Mouse
end_packet stale byte m =
    let bytes = update m.mouse_byte 2 byte in
    let msg : ProcMsg = record {
      from_pid = 0;
      msg = mouse_mov_msg (bytes 1) (bytes 2) (bytes 0) stale;
    } in
    record m {
      mouse_cycle = 0;
      mouse_byte = bytes;
      mouse_x = bytes 1;
      mouse_y = bytes 2;
      kernel =
          if m.owner_pid == 0
          then m.kernel
          else (send_message_to_process m.kernel m.owner_pid msg).2;
    }

-- `ps2MouseISR` for the byte that the port gives back.
unfoldable pub ps2_mouse_isr : List ℕ → ℕ → Mouse → Mouse
unfolding end_packet
ps2_mouse_isr stale byte m =
    if m.mouse_cycle == 0
    then record m {
      mouse_byte = update m.mouse_byte 0 byte;
      mouse_cycle = if byte / 8 % 2 == 0 then 0 else 1;
    }
    else if m.mouse_cycle == 1
    then record m { mouse_byte = update m.mouse_byte 1 byte; mouse_cycle = 2 }
    else if m.mouse_cycle == 2
    then end_packet stale byte m
    else m
