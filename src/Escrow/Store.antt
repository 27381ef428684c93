-- ===== src/Escrow/Store.antt =====
-- RecoveryEscrow: its storage and its guards.
use principal.Base.{ℕ, not, Option, none, ◌==◌}
use principal.Host.{Env, Views, M, lift, gets_or_panic, panic_if, ◌>>=◌, ◌>>◌, require_auth}
use principal.Host.Errors.{EscrowError, escrow}

-- The storage keys of `DataKey`; an absent key is `none`.
pub record State : Type 0 where
  pub underlying : Option ℕ
  pub sy_wrapper : Option ℕ
  pub pt_token : Option ℕ
  pub yt_token : Option ℕ
  pub principal_manager : Option ℕ

abbrev pub empty : State
empty = record {
  underlying = none;
  sy_wrapper = none;
  pt_token = none;
  yt_token = none;
  principal_manager = none;
}

pub data DataKey : Type 0 where
  underlying sy_wrapper pt_token yt_token principal_manager : DataKey

-- The value that a key holds.
unfoldable pub stored : DataKey → State → Option ℕ
stored DataKey.underlying s = s.underlying
stored DataKey.sy_wrapper s = s.sy_wrapper
stored DataKey.pt_token s = s.pt_token
stored DataKey.yt_token s = s.yt_token
stored DataKey.principal_manager s = s.principal_manager

unfoldable pub get : DataKey → M State ℕ
unfolding stored
get key = gets_or_panic (stored key) (escrow EscrowError.not_initialized)

unfoldable pub underlying_address : M State ℕ
unfolding get
underlying_address = get DataKey.underlying

unfoldable pub assert_issuer_admin : Views → Env → ℕ → M State Unit
unfolding get
assert_issuer_admin views env caller = do
  require_auth env caller
  asset ← get DataKey.underlying
  sac_admin ← lift (views.sac_admin asset)
  panic_if (not (caller == sac_admin)) (escrow EscrowError.unauthorized)

unfoldable pub assert_target_deauthorized : Views → ℕ → M State Unit
unfolding get
assert_target_deauthorized views account = do
  asset ← get DataKey.underlying
  authorized ← lift (views.sac_authorized asset account)
  panic_if authorized (escrow EscrowError.target_still_authorized)
