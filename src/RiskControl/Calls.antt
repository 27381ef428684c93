-- ===== src/RiskControl/Calls.antt =====
-- The calls of RiskControl that write.
use principal.Base.{ℕ}
use principal.Base.Int.{ℤ}

pub data Call : Type 0 where
  initialize : ℕ → ℤ → Call
  pause unpause : ℕ → Call
  add_pauser remove_pauser add_consumer remove_consumer : ℕ → ℕ → Call
  check_deposit set_cb_limit : ℕ → ℤ → Call
  transfer_admin : ℕ → ℕ → Call
