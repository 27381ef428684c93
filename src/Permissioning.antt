-- ===== src/Permissioning.antt =====
-- Permissioning (contracts/permissioning/src/lib.rs): the allow-lists of accounts, and of accounts
-- for one asset. The lifetime of an entry (`extend_ttl`) is not modelled: the host archives a
-- persistent entry whose lifetime ends, and no call reads it as absent;
-- Permissioning/Lapses has histories in which one does.
mod Calls
pub mod Eligibility
pub mod Lapses
pub use Calls.{Call}
use principal.Base.{
  ℕ, List, [], ◌∷◌, Bool, true, false, not, Option, none, some, ◌==◌, is_some, unwrap_or, put,
  if◌then◌else◌,
}
use principal.Host.{
  Env, M, gets, gets_or_panic, modify, panic_if, ◌>>=◌, ◌>>◌, require_auth, commit,
}
use principal.Host.Errors.{PermissioningError, permissioning}

-- The storage keys of `DataKey`; an absent key is `none`.
pub record State : Type 0 where
  pub admin : Option ℕ
  pub account_allowed : ℕ → Option Bool
  pub asset_allowed : ℕ → ℕ → Option Bool

abbrev pub empty : State
empty = record { admin = none; account_allowed = λ a. none; asset_allowed = λ a b. none }

unfoldable pub require_admin : M State ℕ
require_admin = gets_or_panic (λ s. s.admin) (permissioning PermissioningError.not_initialized)

unfoldable pub get_admin : M State ℕ
unfolding require_admin
get_admin = require_admin

unfoldable pub assert_admin : Env → ℕ → M State Unit
unfolding require_admin
assert_admin env caller = do
  require_auth env caller
  admin ← require_admin
  panic_if (not (caller == admin)) (permissioning PermissioningError.unauthorized)

unfoldable pub initialize : ℕ → M State Unit
initialize admin = do
  initialized ← gets (λ s. is_some s.admin)
  panic_if initialized (permissioning PermissioningError.already_initialized)
  modify (λ s. record s { admin = some admin })

-- `set(&DataKey::AccountAllowed(account), &allowed)`
abbrev pub set_account : ℕ → Bool → State → State
set_account account allowed s = record s { account_allowed = put s.account_allowed account allowed }

-- `set(&DataKey::AssetAllowed(account, asset), &allowed)`
abbrev pub set_asset : ℕ → ℕ → Bool → State → State
set_asset account asset allowed s = record s {
  asset_allowed =
      λ a. if account == a then put (s.asset_allowed a) asset allowed else s.asset_allowed a;
}

unfoldable pub grant_account : Env → ℕ → ℕ → M State Unit
unfolding assert_admin
grant_account env caller account = do assert_admin env caller; modify (set_account account true)

unfoldable pub revoke_account : Env → ℕ → ℕ → M State Unit
unfolding assert_admin
revoke_account env caller account = do assert_admin env caller; modify (set_account account false)

-- The loop of `grant_accounts`.
unfoldable pub grant_each : List ℕ → State → State
grant_each [] s = s
grant_each (account ∷ accounts) s = grant_each accounts (set_account account true s)

unfoldable pub grant_accounts : Env → ℕ → List ℕ → M State Unit
unfolding assert_admin
grant_accounts env caller accounts = do assert_admin env caller; modify (grant_each accounts)

unfoldable pub is_allowed : ℕ → State → Bool
is_allowed account s = unwrap_or (s.account_allowed account) false

unfoldable pub grant_asset : Env → ℕ → ℕ → ℕ → M State Unit
unfolding assert_admin
grant_asset env caller account asset = do
  assert_admin env caller
  modify (set_asset account asset true)

unfoldable pub revoke_asset : Env → ℕ → ℕ → ℕ → M State Unit
unfolding assert_admin
revoke_asset env caller account asset = do
  assert_admin env caller
  modify (set_asset account asset false)

unfoldable pub is_allowed_for_asset : ℕ → ℕ → State → Bool
is_allowed_for_asset account asset s = unwrap_or (s.asset_allowed account asset) false

unfoldable pub transfer_admin : Env → ℕ → ℕ → M State Unit
unfolding assert_admin
transfer_admin env current_admin new_admin = do
  assert_admin env current_admin
  modify (λ s. record s { admin = some new_admin })

unfoldable pub apply : Env → Call → State → State
apply env (Call.initialize admin) s = commit s (initialize admin s)
apply env (Call.grant_account caller account) s = commit s (grant_account env caller account s)
apply env (Call.revoke_account caller account) s = commit s (revoke_account env caller account s)
apply env (Call.grant_accounts caller accounts) s = commit s (grant_accounts env caller accounts s)
apply env (Call.grant_asset caller account asset) s =
    commit s (grant_asset env caller account asset s)
apply env (Call.revoke_asset caller account asset) s =
    commit s (revoke_asset env caller account asset s)
apply env (Call.transfer_admin current_admin new_admin) s =
    commit s (transfer_admin env current_admin new_admin s)

unfoldable pub run : List (Env × Call) → State → State
unfolding apply
run [] s = s
run ((env, call) ∷ calls) s = run calls (apply env call s)
