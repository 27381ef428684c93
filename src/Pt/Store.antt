-- ===== src/Pt/Store.antt =====
-- PTToken: its storage, its views and its guards.
use Prim.Native.String.{String}
use principal.Base.{ℕ, [], not, Option, none, ◌==◌, unwrap_or}
use principal.Base.Int.{ℤ, pos}
use principal.Base.Balances.{Balances, get_amount, set_amount}
use principal.Allowance.{Allowances, get_allowance}
use principal.Host.{Env, Views, M, lift, gets_or_panic, modify, panic_if, ◌>>=◌, ◌>>◌, require_auth}
use principal.Host.Errors.{PtError, pt}

-- The storage keys of `DataKey`; an absent key is `none`.
pub record State : Type 0 where
  pub admin : Option ℕ
  pub minter : Option ℕ
  pub permissioning : Option ℕ
  pub underlying : Option ℕ
  pub recovery_escrow : Option ℕ
  pub maturity : Option ℕ
  pub name : Option String
  pub symbol : Option String
  pub decimals : Option ℕ
  pub total_supply : Option ℤ
  pub balances : Balances
  pub allowances : Allowances

abbrev pub empty : State
empty = record {
  admin = none;
  minter = none;
  permissioning = none;
  underlying = none;
  recovery_escrow = none;
  maturity = none;
  name = none;
  symbol = none;
  decimals = none;
  total_supply = none;
  balances = [];
  allowances = λ owner spender. none;
}

unfoldable pub total_supply : State → ℤ
total_supply s = unwrap_or s.total_supply (pos 0)

unfoldable pub balance : ℕ → State → ℤ
balance account s = get_amount s.balances account

unfoldable pub allowance : ℕ → ℕ → State → ℤ
allowance from spender s = (get_allowance s.allowances from spender).amount

unfoldable pub decimals : State → ℕ
decimals s = unwrap_or s.decimals 0

unfoldable pub name : M State String
name = gets_or_panic (λ s. s.name) (pt PtError.not_initialized)

unfoldable pub symbol : M State String
symbol = gets_or_panic (λ s. s.symbol) (pt PtError.not_initialized)

unfoldable pub maturity : M State ℕ
maturity = gets_or_panic (λ s. s.maturity) (pt PtError.not_initialized)

unfoldable pub underlying_address : M State ℕ
underlying_address = gets_or_panic (λ s. s.underlying) (pt PtError.not_initialized)

unfoldable pub permissioning_address : M State ℕ
permissioning_address = gets_or_panic (λ s. s.permissioning) (pt PtError.not_initialized)

unfoldable pub require_minter : M State ℕ
require_minter = gets_or_panic (λ s. s.minter) (pt PtError.minter_not_set)

unfoldable pub minter : M State ℕ
unfolding require_minter
minter = require_minter

unfoldable pub require_escrow : M State ℕ
require_escrow = gets_or_panic (λ s. s.recovery_escrow) (pt PtError.not_recovery_escrow)

unfoldable pub recovery_escrow : M State ℕ
unfolding require_escrow
recovery_escrow = require_escrow

unfoldable pub require_admin : M State ℕ
require_admin = gets_or_panic (λ s. s.admin) (pt PtError.not_initialized)

unfoldable pub get_admin : M State ℕ
unfolding require_admin
get_admin = require_admin

unfoldable pub assert_admin : Env → ℕ → M State Unit
unfolding require_admin
assert_admin env caller = do
  require_auth env caller
  admin ← require_admin
  panic_if (not (caller == admin)) (pt PtError.unauthorized)

unfoldable pub assert_permitted : Views → Env → ℕ → M State Unit
unfolding permissioning_address
assert_permitted views env account = do
  perm_addr ← permissioning_address
  allowed ← lift (views.is_allowed perm_addr account)
  panic_if (not allowed) (pt PtError.permission_denied)
  for_asset ← lift (views.is_allowed_for_asset perm_addr account env.current)
  panic_if (not for_asset) (pt PtError.permission_denied)

unfoldable pub assert_sac_authorized : Views → ℕ → M State Unit
unfolding underlying_address
assert_sac_authorized views account = do
  underlying ← underlying_address
  authorized ← lift (views.sac_authorized underlying account)
  panic_if (not authorized) (pt PtError.not_authorized_on_sac)

unfoldable pub set_balance : ℕ → ℤ → M State Unit
set_balance account amount =
    modify (λ s. record s { balances = set_amount s.balances account amount })
