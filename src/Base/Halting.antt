-- ===== src/Base/Halting.antt =====
-- Code that may stop the machine: `herr` prints its message and never returns.

-- The messages that the modelled code hands to `herr`.
pub data Panic : Type 0 where
  out_of_memory memory_list_overflow no_drives rsdp_not_found rsdp_checksum rsdt_signature : Panic
  invalid_magic invalid_memory_map kernel_modules : Panic

pub data Outcome {ℓ} (A : Type ℓ) : Type ℓ where
  done : A → Outcome A
  halted : Panic → Outcome A

infixl 5 ◌>>=◌
abbrev pub ◌>>=◌ {ℓ κ} : {A : Type ℓ} {B : Type κ} → Outcome A → (A → Outcome B) → Outcome B
done a >>= f = f a
halted p >>= f = halted p
