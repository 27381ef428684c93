-- ===== src/Yt/Store.antt =====
-- YTToken: its storage, its views and its guards.
use Prim.Native.String.{String}
use principal.Base.{ℕ, [], not, Option, none, ◌==◌, unwrap_or}
use principal.Base.Int.{ℤ, pos}
use principal.Base.Balances.{Balances, get_amount, set_amount}
use principal.Allowance.{Allowances, get_allowance}
use principal.Host.{Env, Views, M, lift, gets_or_panic, modify, panic_if, ◌>>=◌, ◌>>◌, require_auth}
use principal.Host.Errors.{YtError, yt}

-- `SCALE`
abbrev pub scale : ℤ
scale = pos 10000000

-- `MAX_ORACLE_STALENESS_SECS`
abbrev pub max_oracle_staleness_secs : ℕ
max_oracle_staleness_secs = 3600

-- The storage keys of `DataKey`; an absent key is `none`.
pub record State : Type 0 where
  pub admin : Option ℕ
  pub minter : Option ℕ
  pub permissioning : Option ℕ
  pub underlying : Option ℕ
  pub recovery_escrow : Option ℕ
  pub oracle : Option ℕ
  pub maturity : Option ℕ
  pub name : Option String
  pub symbol : Option String
  pub decimals : Option ℕ
  pub total_supply : Option ℤ
  pub balances : Balances
  pub allowances : Allowances
  pub yield_index : Option ℤ
  pub last_oracle_rate : Option ℤ
  pub last_claimed_index : ℕ → Option ℤ
  pub pending_claim : Balances

abbrev pub empty : State
empty = record {
  admin = none;
  minter = none;
  permissioning = none;
  underlying = none;
  recovery_escrow = none;
  oracle = none;
  maturity = none;
  name = none;
  symbol = none;
  decimals = none;
  total_supply = none;
  balances = [];
  allowances = λ owner spender. none;
  yield_index = none;
  last_oracle_rate = none;
  last_claimed_index = λ account. none;
  pending_claim = [];
}

unfoldable pub total_supply : State → ℤ
total_supply s = unwrap_or s.total_supply (pos 0)

unfoldable pub balance : ℕ → State → ℤ
balance account s = get_amount s.balances account

unfoldable pub allowance : ℕ → ℕ → State → ℤ
allowance from spender s = (get_allowance s.allowances from spender).amount

unfoldable pub decimals : State → ℕ
decimals s = unwrap_or s.decimals 0

unfoldable pub name : M State String
name = gets_or_panic (λ s. s.name) (yt YtError.not_initialized)

unfoldable pub symbol : M State String
symbol = gets_or_panic (λ s. s.symbol) (yt YtError.not_initialized)

unfoldable pub maturity : M State ℕ
maturity = gets_or_panic (λ s. s.maturity) (yt YtError.not_initialized)

unfoldable pub underlying_address : M State ℕ
underlying_address = gets_or_panic (λ s. s.underlying) (yt YtError.not_initialized)

unfoldable pub permissioning_address : M State ℕ
permissioning_address = gets_or_panic (λ s. s.permissioning) (yt YtError.not_initialized)

unfoldable pub oracle_address : M State ℕ
oracle_address = gets_or_panic (λ s. s.oracle) (yt YtError.not_initialized)

unfoldable pub accrued_yield_index : State → ℤ
accrued_yield_index s = unwrap_or s.yield_index scale

unfoldable pub last_claimed_index : ℕ → State → ℤ
last_claimed_index account s = unwrap_or (s.last_claimed_index account) scale

unfoldable pub pending_claim : ℕ → State → ℤ
pending_claim account s = get_amount s.pending_claim account

unfoldable pub require_minter : M State ℕ
require_minter = gets_or_panic (λ s. s.minter) (yt YtError.minter_not_set)

unfoldable pub minter : M State ℕ
unfolding require_minter
minter = require_minter

unfoldable pub require_escrow : M State ℕ
require_escrow = gets_or_panic (λ s. s.recovery_escrow) (yt YtError.not_recovery_escrow)

unfoldable pub recovery_escrow : M State ℕ
unfolding require_escrow
recovery_escrow = require_escrow

unfoldable pub require_admin : M State ℕ
require_admin = gets_or_panic (λ s. s.admin) (yt YtError.not_initialized)

unfoldable pub get_admin : M State ℕ
unfolding require_admin
get_admin = require_admin

unfoldable pub assert_admin : Env → ℕ → M State Unit
unfolding require_admin
assert_admin env caller = do
  require_auth env caller
  admin ← require_admin
  panic_if (not (caller == admin)) (yt YtError.unauthorized)

unfoldable pub assert_permitted : Views → Env → ℕ → M State Unit
unfolding permissioning_address
assert_permitted views env account = do
  perm_addr ← permissioning_address
  allowed ← lift (views.is_allowed perm_addr account)
  panic_if (not allowed) (yt YtError.permission_denied)
  for_asset ← lift (views.is_allowed_for_asset perm_addr account env.current)
  panic_if (not for_asset) (yt YtError.permission_denied)

unfoldable pub assert_sac_authorized : Views → ℕ → M State Unit
unfolding underlying_address
assert_sac_authorized views account = do
  underlying ← underlying_address
  authorized ← lift (views.sac_authorized underlying account)
  panic_if (not authorized) (yt YtError.not_authorized_on_sac)

unfoldable pub set_balance : ℕ → ℤ → M State Unit
set_balance account amount =
    modify (λ s. record s { balances = set_amount s.balances account amount })
