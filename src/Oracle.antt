-- ===== src/Oracle.antt =====
-- OracleAdapter (contracts/oracle_adapter/src/lib.rs): the admin's reference value and its time.
mod Calls
pub mod Updates
pub use Calls.{Call}
use principal.Base.{
  ℕ, ◌-◌, List, [], ◌∷◌, Bool, false, not, Option, none, some, ltb, leb, ◌==◌, is_some, unwrap_or,
  if◌then◌else◌,
}
use principal.Base.Int.{ℤ, pos, ltb_ℤ, leb_ℤ}
use principal.Host.{
  Env, M, gets, gets_or_panic, modify, panic_if, ◌>>=◌, ◌>>◌, require_auth, commit,
}
use principal.Host.Errors.{OracleError, oracle}

-- The storage keys of `DataKey`; an absent key is `none`.
pub record State : Type 0 where
  pub admin : Option ℕ
  pub price : Option ℤ
  pub timestamp : Option ℕ

abbrev pub empty : State
empty = record { admin = none; price = none; timestamp = none }

unfoldable pub require_admin : M State ℕ
require_admin = gets_or_panic (λ s. s.admin) (oracle OracleError.not_initialized)

unfoldable pub get_admin : M State ℕ
unfolding require_admin
get_admin = require_admin

unfoldable pub initialize : ℕ → M State Unit
initialize admin = do
  initialized ← gets (λ s. is_some s.admin)
  panic_if initialized (oracle OracleError.already_initialized)
  modify (λ s. record s { admin = some admin })

unfoldable pub set_reference_value : Env → ℕ → ℤ → ℕ → M State Unit
unfolding require_admin
set_reference_value env caller value timestamp = do
  require_auth env caller
  admin ← require_admin
  panic_if (not (caller == admin)) (oracle OracleError.unauthorized)
  panic_if (leb_ℤ value (pos 0)) (oracle OracleError.invalid_value)
  current_price ← gets (λ s. unwrap_or s.price (pos 0))
  panic_if (ltb_ℤ value current_price) (oracle OracleError.value_decreased)
  current_ts ← gets (λ s. unwrap_or s.timestamp 0)
  panic_if (leb timestamp current_ts) (oracle OracleError.timestamp_too_old)
  modify (λ s. record s { price = some value; timestamp = some timestamp })

unfoldable pub get_reference_value : M State ℤ
get_reference_value = gets_or_panic (λ s. s.price) (oracle OracleError.not_initialized)

unfoldable pub get_reference_timestamp : M State ℕ
get_reference_timestamp = gets_or_panic (λ s. s.timestamp) (oracle OracleError.not_initialized)

unfoldable pub is_fresh : Env → ℕ → State → Bool
is_fresh env max_stale_seconds s =
    let stored_ts = unwrap_or s.timestamp 0 in
    let ledger_ts = env.timestamp in
    if ltb ledger_ts stored_ts then false else leb (ledger_ts - stored_ts) max_stale_seconds

unfoldable pub transfer_admin : Env → ℕ → ℕ → M State Unit
unfolding require_admin
transfer_admin env current_admin new_admin = do
  require_auth env current_admin
  admin ← require_admin
  panic_if (not (current_admin == admin)) (oracle OracleError.unauthorized)
  modify (λ s. record s { admin = some new_admin })

unfoldable pub apply : Env → Call → State → State
apply env (Call.initialize admin) s = commit s (initialize admin s)
apply env (Call.set_reference_value caller value timestamp) s =
    commit s (set_reference_value env caller value timestamp s)
apply env (Call.transfer_admin current_admin new_admin) s =
    commit s (transfer_admin env current_admin new_admin s)

unfoldable pub run : List (Env × Call) → State → State
unfolding apply
run [] s = s
run ((env, call) ∷ calls) s = run calls (apply env call s)
