-- ===== src/Pt/Requests.antt =====
-- The calls of PTToken that write.
use Prim.Native.String.{String}
use principal.Base.{ℕ}
use principal.Base.Int.{ℤ}

pub data Call : Type 0 where
  initialize : ℕ → ℕ → ℕ → ℕ → String → String → ℕ → Call
  set_minter set_recovery_escrow : ℕ → ℕ → Call
  transfer : ℕ → ℕ → ℤ → Call
  transfer_from : ℕ → ℕ → ℕ → ℤ → Call
  approve : ℕ → ℕ → ℤ → ℕ → Call
  mint burn : ℕ → ℤ → Call
  seize : ℕ → ℕ → ℤ → Call
