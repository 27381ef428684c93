-- ===== src/Token.antt =====
-- The Stellar Asset Contract of the underlying asset, which is not part of the repository: its
-- ledger and its `transfer` are parameters, with the documented behaviour that the proofs rely on.
pub mod Simple
use principal.Base.{ℕ, ◌≡◌, ◌≢◌, ◌==◌, if◌then◌else◌}
use principal.Base.Int.{ℤ, pos, ◌+ℤ◌, ◌-ℤ◌, ◌≤ℤ◌}
use principal.Host.{Env, Result, ok}

-- The token contracts by their addresses. A transfer that succeeds moves the amount between the two
-- accounts and leaves every other balance, and the other tokens, as they were. It calls no contract
-- back. No balance is negative.
pub record Token : Type 1 where
  pub Ledger : Type 0
  pub balance : ℕ → Ledger → ℕ → ℤ
  pub transfer : ℕ → Env → ℕ → ℕ → ℤ → Ledger → Result Ledger
  pub balance_nonneg : (asset : ℕ) (l : Ledger) (a : ℕ) → pos 0 ≤ℤ balance asset l a
  pub transfer_moves :
      (asset : ℕ) (env : Env) (from to : ℕ) (amount : ℤ) (l l' : Ledger)
      → transfer asset env from to amount l ≡ ok l'
      → (a : ℕ)
      → balance asset l' a
        ≡ (balance asset l a -ℤ (if from == a then amount else pos 0))
          +ℤ (if to == a then amount else pos 0)
  pub transfer_others :
      (asset : ℕ) (env : Env) (from to : ℕ) (amount : ℤ) (l l' : Ledger)
      → transfer asset env from to amount l ≡ ok l'
      → (other : ℕ) → other ≢ asset
      → (a : ℕ) → balance other l' a ≡ balance other l a
