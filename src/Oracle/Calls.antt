-- ===== src/Oracle/Calls.antt =====
-- The calls of OracleAdapter that write.
use principal.Base.{ℕ}
use principal.Base.Int.{ℤ}

pub data Call : Type 0 where
  initialize : ℕ → Call
  set_reference_value : ℕ → ℤ → ℕ → Call
  transfer_admin : ℕ → ℕ → Call
