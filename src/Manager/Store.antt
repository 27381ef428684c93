-- ===== src/Manager/Store.antt =====
-- PrincipalManager: its storage, its views and its guards.
use principal.Base.{ℕ, ◌-◌, ◌^◌, Bool, false, not, Option, none, ltb, leb, ◌==◌, unwrap_or}
use principal.Base.Int.{ℤ, pos}
use principal.Host.{
  Env, Views, Result, M, lift, gets, gets_or_panic, panic_if, ◌>>=◌, ◌>>◌, require_auth, mul_div,
}
use principal.Host.Errors.{ManagerError, manager}

-- `SCALE`
abbrev pub scale : ℤ
scale = pos 10000000

-- `MAX_ORACLE_STALENESS_SECS`
abbrev pub max_oracle_staleness_secs : ℕ
max_oracle_staleness_secs = 3600

-- `u64::MAX`
abbrev pub u64_max : ℕ
u64_max = 2 ^ 64 - 1

-- The storage keys of `DataKey`; an absent key is `none`.
pub record State : Type 0 where
  pub admin : Option ℕ
  pub sy_wrapper : Option ℕ
  pub pt_token : Option ℕ
  pub yt_token : Option ℕ
  pub oracle : Option ℕ
  pub permissioning : Option ℕ
  pub underlying : Option ℕ
  pub maturity : Option ℕ
  pub paused : Option Bool

abbrev pub empty : State
empty = record {
  admin = none;
  sy_wrapper = none;
  pt_token = none;
  yt_token = none;
  oracle = none;
  permissioning = none;
  underlying = none;
  maturity = none;
  paused = none;
}

pub record MintResult : Type 0 where
  pub pt_minted : ℤ
  pub yt_minted : ℤ

pub record RedeemResult : Type 0 where
  pub underlying_from_pt : ℤ
  pub underlying_from_yt : ℤ

unfoldable pub maturity : M State ℕ
maturity = gets_or_panic (λ s. s.maturity) (manager ManagerError.not_initialized)

unfoldable pub is_mature : Env → State → Bool
is_mature env s = leb (unwrap_or s.maturity u64_max) env.timestamp

unfoldable pub underlying_address : M State ℕ
underlying_address = gets_or_panic (λ s. s.underlying) (manager ManagerError.not_initialized)

unfoldable pub oracle_address : M State ℕ
oracle_address = gets_or_panic (λ s. s.oracle) (manager ManagerError.not_initialized)

unfoldable pub get_oracle_rate : Views → M State ℤ
unfolding oracle_address
get_oracle_rate views = do
  oracle_addr ← oracle_address
  lift (views.get_reference_value oracle_addr)

unfoldable pub assert_oracle_fresh : Views → M State Unit
unfolding oracle_address
assert_oracle_fresh views = do
  oracle_addr ← oracle_address
  fresh ← lift (views.is_fresh oracle_addr max_oracle_staleness_secs)
  panic_if (not fresh) (manager ManagerError.oracle_stale)

unfoldable pub assert_permitted : Views → ℕ → M State Unit
assert_permitted views account = do
  perm_addr ← gets_or_panic (λ s. s.permissioning) (manager ManagerError.not_initialized)
  allowed ← lift (views.is_allowed perm_addr account)
  panic_if (not allowed) (manager ManagerError.permission_denied)

unfoldable pub assert_sac_authorized : Views → ℕ → M State Unit
unfolding underlying_address
assert_sac_authorized views account = do
  underlying ← underlying_address
  authorized ← lift (views.sac_authorized underlying account)
  panic_if (not authorized) (manager ManagerError.not_authorized_on_sac)

unfoldable pub get_sy_wrapper : M State ℕ
get_sy_wrapper = gets_or_panic (λ s. s.sy_wrapper) (manager ManagerError.not_initialized)

unfoldable pub get_pt_token : M State ℕ
get_pt_token = gets_or_panic (λ s. s.pt_token) (manager ManagerError.not_initialized)

unfoldable pub get_yt_token : M State ℕ
get_yt_token = gets_or_panic (λ s. s.yt_token) (manager ManagerError.not_initialized)

unfoldable pub underlying_to_shares : ℤ → ℤ → Result ℤ
underlying_to_shares exchange_rate underlying = mul_div underlying scale exchange_rate

unfoldable pub require_admin : M State ℕ
require_admin = gets_or_panic (λ s. s.admin) (manager ManagerError.not_initialized)

unfoldable pub get_admin : M State ℕ
unfolding require_admin
get_admin = require_admin

unfoldable pub assert_admin : Env → ℕ → M State Unit
unfolding require_admin
assert_admin env caller = do
  require_auth env caller
  admin ← require_admin
  panic_if (not (caller == admin)) (manager ManagerError.unauthorized)

unfoldable pub assert_not_paused : M State Unit
assert_not_paused = do
  paused ← gets (λ s. unwrap_or s.paused false)
  panic_if paused (manager ManagerError.paused)

unfoldable pub assert_mature : Env → M State Unit
assert_mature env = do
  mat ← gets (λ s. unwrap_or s.maturity u64_max)
  panic_if (ltb env.timestamp mat) (manager ManagerError.not_mature)

unfoldable pub assert_not_mature : Env → M State Unit
assert_not_mature env = do
  mat ← gets (λ s. unwrap_or s.maturity u64_max)
  panic_if (leb mat env.timestamp) (manager ManagerError.already_mature)
