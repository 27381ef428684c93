-- ===== src/Sy/Store.antt =====
-- SYWrapper: its storage, its views, its guards and its arithmetic.
use principal.Base.{ℕ, [], Bool, false, not, Option, none, ◌==◌, unwrap_or, if◌then◌else◌}
use principal.Base.Int.{ℤ, pos, is_zero}
use principal.Base.Balances.{Balances, get_amount, set_amount}
use principal.Host.{
  and_then, mul_div, Env, Views, Result, ok, M, lift, gets, gets_or_panic, modify, panic_if, ◌>>=◌,
  ◌>>◌, require_auth, ◌+?◌, ◌-?◌, and_then, mul_div,
}
use principal.Host.Errors.{SyError, sy}

-- `RATE_SCALE`
abbrev pub rate_scale : ℤ
rate_scale = pos 10000000

-- The storage keys of `DataKey`; an absent key is `none`.
pub record State : Type 0 where
  pub admin : Option ℕ
  pub underlying : Option ℕ
  pub permissioning : Option ℕ
  pub recovery_escrow : Option ℕ
  pub total_underlying : Option ℤ
  pub total_shares : Option ℤ
  pub balances : Balances
  pub paused : Option Bool

abbrev pub empty : State
empty = record {
  admin = none;
  underlying = none;
  permissioning = none;
  recovery_escrow = none;
  total_underlying = none;
  total_shares = none;
  balances = [];
  paused = none;
}

-- Views.

unfoldable pub total_underlying : State → ℤ
total_underlying s = unwrap_or s.total_underlying (pos 0)

unfoldable pub total_shares : State → ℤ
total_shares s = unwrap_or s.total_shares (pos 0)

unfoldable pub exchange_rate : State → Result ℤ
unfolding total_underlying total_shares
exchange_rate s =
    if is_zero (total_shares s)
    then ok rate_scale
    else mul_div (total_underlying s) rate_scale (total_shares s)

unfoldable pub balance_of : ℕ → State → ℤ
balance_of account s = get_amount s.balances account

unfoldable pub get_underlying : M State ℕ
get_underlying = gets_or_panic (λ s. s.underlying) (sy SyError.not_initialized)

unfoldable pub underlying_address : M State ℕ
unfolding get_underlying
underlying_address = get_underlying

unfoldable pub permissioning_address : M State ℕ
permissioning_address = gets_or_panic (λ s. s.permissioning) (sy SyError.not_initialized)

unfoldable pub require_admin : M State ℕ
require_admin = gets_or_panic (λ s. s.admin) (sy SyError.not_initialized)

unfoldable pub get_admin : M State ℕ
unfolding require_admin
get_admin = require_admin

unfoldable pub require_escrow : M State ℕ
require_escrow = gets_or_panic (λ s. s.recovery_escrow) (sy SyError.not_recovery_escrow)

unfoldable pub recovery_escrow : M State ℕ
unfolding require_escrow
recovery_escrow = require_escrow

-- Guards.

unfoldable pub assert_admin : Env → ℕ → M State Unit
unfolding require_admin
assert_admin env caller = do
  require_auth env caller
  admin ← require_admin
  panic_if (not (caller == admin)) (sy SyError.unauthorized)

unfoldable pub assert_not_paused : M State Unit
assert_not_paused = do
  paused ← gets (λ s. unwrap_or s.paused false)
  panic_if paused (sy SyError.paused)

unfoldable pub assert_permitted : Views → ℕ → M State Unit
unfolding permissioning_address
assert_permitted views account = do
  perm_addr ← permissioning_address
  allowed ← lift (views.is_allowed perm_addr account)
  panic_if (not allowed) (sy SyError.permission_denied)

unfoldable pub assert_sac_authorized : Views → ℕ → M State Unit
unfolding get_underlying
assert_sac_authorized views account = do
  underlying ← get_underlying
  authorized ← lift (views.sac_authorized underlying account)
  panic_if (not authorized) (sy SyError.not_authorized_on_sac)

-- Arithmetic and balances.

unfoldable pub underlying_to_shares : ℤ → State → Result ℤ
unfolding total_shares
underlying_to_shares amount s =
    if is_zero (total_shares s)
    then ok amount
    else and_then (exchange_rate s) (λ rate. mul_div amount rate_scale rate)

unfoldable pub shares_to_underlying : ℤ → State → Result ℤ
shares_to_underlying shares s = and_then (exchange_rate s) (λ rate. mul_div shares rate rate_scale)

unfoldable pub add_balance : ℕ → ℤ → M State Unit
add_balance account delta = do
  bal ← gets (λ s. get_amount s.balances account)
  sum ← lift (bal +? delta)
  modify (λ s. record s { balances = set_amount s.balances account sum })

unfoldable pub sub_balance : ℕ → ℤ → M State Unit
sub_balance account delta = do
  bal ← gets (λ s. get_amount s.balances account)
  difference ← lift (bal -? delta)
  modify (λ s. record s { balances = set_amount s.balances account difference })
