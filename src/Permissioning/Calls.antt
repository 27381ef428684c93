-- ===== src/Permissioning/Calls.antt =====
-- The calls of Permissioning that write.
use principal.Base.{ℕ, List}

pub data Call : Type 0 where
  initialize : ℕ → Call
  grant_account revoke_account : ℕ → ℕ → Call
  grant_accounts : ℕ → List ℕ → Call
  grant_asset revoke_asset : ℕ → ℕ → ℕ → Call
  transfer_admin : ℕ → ℕ → Call
