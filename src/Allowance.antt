-- ===== src/Allowance.antt =====
-- The allowances of PTToken and YTToken (`AllowanceValue`, `get_allowance`, `set_allowance`, which
-- both contracts write alike): by owner and spender, and 0 until ledger 0 for an absent key.
use principal.Base.{ℕ, ◌≡◌, ◌&&◌, Option, arith, ◌==◌, put, unwrap_or, if◌then◌else◌}
use principal.Base.Int.{ℤ, pos}

pub record AllowanceValue : Type 0 where
  pub amount : ℤ
  pub expiration_ledger : ℕ

abbrev pub Allowances : Type 0
Allowances = ℕ → ℕ → Option AllowanceValue

unfoldable pub get_allowance : Allowances → ℕ → ℕ → AllowanceValue
get_allowance m from spender =
    unwrap_or (m from spender) (record { amount = pos 0; expiration_ledger = 0 })

unfoldable pub set_allowance : Allowances → ℕ → ℕ → ℤ → ℕ → Allowances
set_allowance m from spender amount expiration_ledger owner =
    if from == owner
    then put (m owner) spender (record { amount = amount; expiration_ledger = expiration_ledger })
    else m owner

pub get-set_allowance :
    (m : Allowances) (from spender owner other : ℕ) (amount : ℤ) (expiration_ledger : ℕ)
    → get_allowance (set_allowance m from spender amount expiration_ledger) owner other ≡ (
        if from == owner && spender == other
        then record { amount = amount; expiration_ledger = expiration_ledger }
        else get_allowance m owner other)
unfolding get_allowance set_allowance
get-set_allowance m from spender owner other amount expiration_ledger = ground arith
