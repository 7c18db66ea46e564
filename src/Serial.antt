-- ===== src/Serial.antt =====
-- The serial port of foki/serial.c. A text is the list of its bytes in front of the NUL, and the port
-- writes are recorded, the last one first. What the port answers is an argument; the wait for the
-- transmitter is left out.
use acky.Base.{ℕ, ◌+◌, if◌then◌else◌, ◌==◌, Bool, true, List, [], ◌∷◌}
use acky.Decimal.Text.{int_text}
use acky.Io.{PortWrite, outb}

-- `faulty`, and the ports.
pub record Serial : Type 0 where
  pub faulty : Bool
  pub ports : List PortWrite

abbrev pub com1 : ℕ
com1 = 0x3F8

-- The argument is what the port reads back of the test byte.
unfoldable pub init_serial : (echo : ℕ) → Serial → Serial
init_serial echo s =
    let tested : List PortWrite =
      outb com1 0xAE
      ∷ outb (com1 + 4) 0x1E
      ∷ outb (com1 + 4) 0x0B
      ∷ outb (com1 + 2) 0xC7
      ∷ outb (com1 + 3) 0x03
      ∷ outb (com1 + 1) 0x00
      ∷ outb com1 0x03
      ∷ outb (com1 + 3) 0x80
      ∷ outb (com1 + 1) 0x00
      ∷ s.ports in
    if echo == 0xAE
    then record s { ports = outb (com1 + 4) 0x0F ∷ tested }
    else record { faulty = true; ports = tested }

-- The byte goes to the port, and to the console of the emulator.
unfoldable pub serial_send : ℕ → Serial → Serial
serial_send c s = if s.faulty then s else record s { ports = outb 0xE9 c ∷ outb com1 c ∷ s.ports }

unfoldable pub serial_send_string : List ℕ → Serial → Serial
serial_send_string [] s = s
serial_send_string (c ∷ cs) s = serial_send_string cs (serial_send c s)

unfoldable pub serial_send_int : ℕ → Serial → Serial
serial_send_int num s = serial_send_string (int_text num) s
