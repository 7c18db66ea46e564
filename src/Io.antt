-- ===== src/Io.antt =====
-- The port output of foki/io.c: what `outb` and `outw` send is recorded, the value cut to the width of
-- the port.
use acky.Base.{ℕ, ◌%◌, ◌^◌}

pub record PortWrite : Type 0 where
  pub port : ℕ
  pub value : ℕ

abbrev pub outb : ℕ → ℕ → PortWrite
outb port value = record { port = port % 2 ^ 16; value = value % 2 ^ 8 }

abbrev pub outw : ℕ → ℕ → PortWrite
outw port value = record { port = port % 2 ^ 16; value = value % 2 ^ 16 }
