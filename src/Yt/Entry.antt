-- ===== src/Yt/Entry.antt =====
-- YTToken: the entry points that write.
use Prim.Native.String.{String}
use principal.Base.{◌||◌, ℕ, not, some, ltb, ◌==◌, is_some, unwrap_or}
use principal.Base.Int.{ℤ, pos, ltb_ℤ, leb_ℤ}
use principal.Base.Balances.{get_amount}
use principal.Allowance.{get_allowance, set_allowance}
use principal.Host.{
  Env, Views, M, pure, lift, gets, modify, panic_if, ◌>>=◌, ◌>>◌, require_auth, ◌+?◌, ◌-?◌,
}
use principal.Host.Errors.{YtError, yt}
use principal.Yt.Accrual.{settle}
use principal.Yt.Store.{
  scale, max_oracle_staleness_secs, State, require_minter, require_escrow, assert_admin,
  assert_permitted, assert_sac_authorized, set_balance,
}

unfoldable pub initialize : Views → Env → ℕ → ℕ → ℕ → ℕ → ℕ → String → String → ℕ → M State Unit
initialize views env admin permissioning underlying oracle maturity name symbol decimals = do
  initialized ← gets (λ s. is_some s.admin)
  panic_if initialized (yt YtError.already_initialized)
  require_auth env admin
  sac_admin ← lift (views.sac_admin underlying)
  panic_if (not (admin == sac_admin)) (yt YtError.issuer_mismatch)
  fresh ← lift (views.is_fresh oracle max_oracle_staleness_secs)
  panic_if (not fresh) (yt YtError.oracle_stale)
  genesis_rate ← lift (views.get_reference_value oracle)
  modify (λ s. record s {
    admin = some admin;
    permissioning = some permissioning;
    underlying = some underlying;
    oracle = some oracle;
    maturity = some maturity;
    name = some name;
    symbol = some symbol;
    decimals = some decimals;
    total_supply = some (pos 0);
    yield_index = some scale;
    last_oracle_rate = some genesis_rate;
  })

unfoldable pub set_minter : Env → ℕ → ℕ → M State Unit
unfolding assert_admin
set_minter env admin minter = do
  assert_admin env admin
  registered ← gets (λ s. is_some s.minter)
  panic_if registered (yt YtError.minter_already_set)
  modify (λ s. record s { minter = some minter })

unfoldable pub set_recovery_escrow : Env → ℕ → ℕ → M State Unit
unfolding assert_admin
set_recovery_escrow env admin escrow = do
  assert_admin env admin
  wired ← gets (λ s. is_some s.recovery_escrow)
  panic_if wired (yt YtError.recovery_escrow_already_set)
  modify (λ s. record s { recovery_escrow = some escrow })

unfoldable pub transfer : Views → Env → ℕ → ℕ → ℤ → M State Unit
unfolding assert_sac_authorized assert_permitted set_balance
transfer views env from to amount = do
  require_auth env from
  panic_if (leb_ℤ amount (pos 0)) (yt YtError.zero_amount)
  assert_sac_authorized views from
  assert_sac_authorized views to
  assert_permitted views env from
  assert_permitted views env to
  from_balance ← gets (λ s. get_amount s.balances from)
  panic_if (ltb_ℤ from_balance amount) (yt YtError.insufficient_balance)
  settle from
  settle to
  less ← lift (from_balance -? amount)
  set_balance from less
  to_balance ← gets (λ s. get_amount s.balances to)
  more ← lift (to_balance +? amount)
  set_balance to more

unfoldable pub transfer_from : Views → Env → ℕ → ℕ → ℕ → ℤ → M State Unit
unfolding assert_sac_authorized assert_permitted set_balance
transfer_from views env spender from to amount = do
  require_auth env spender
  panic_if (leb_ℤ amount (pos 0)) (yt YtError.zero_amount)
  assert_sac_authorized views from
  assert_sac_authorized views to
  assert_permitted views env from
  assert_permitted views env to
  allowance ← gets (λ s. get_allowance s.allowances from spender)
  panic_if (ltb_ℤ allowance.amount amount || ltb allowance.expiration_ledger env.sequence)
      (yt YtError.insufficient_allowance)
  from_balance ← gets (λ s. get_amount s.balances from)
  panic_if (ltb_ℤ from_balance amount) (yt YtError.insufficient_balance)
  settle from
  settle to
  less ← lift (from_balance -? amount)
  set_balance from less
  to_balance ← gets (λ s. get_amount s.balances to)
  more ← lift (to_balance +? amount)
  set_balance to more
  rest ← lift (allowance.amount -? amount)
  modify (λ s. record s {
    allowances = set_allowance s.allowances from spender rest allowance.expiration_ledger;
  })

unfoldable pub approve : Env → ℕ → ℕ → ℤ → ℕ → M State Unit
approve env from spender amount expiration_ledger = do
  require_auth env from
  panic_if (ltb_ℤ amount (pos 0)) (yt YtError.zero_amount)
  modify (λ s. record s {
    allowances = set_allowance s.allowances from spender amount expiration_ledger;
  })

unfoldable pub mint : Views → Env → ℕ → ℤ → M State Unit
unfolding require_minter assert_sac_authorized assert_permitted set_balance
mint views env to amount = do
  minter ← require_minter
  require_auth env minter
  panic_if (leb_ℤ amount (pos 0)) (yt YtError.zero_amount)
  assert_sac_authorized views to
  assert_permitted views env to
  settle to
  bal ← gets (λ s. get_amount s.balances to)
  more ← lift (bal +? amount)
  set_balance to more
  total ← gets (λ s. unwrap_or s.total_supply (pos 0))
  new_total ← lift (total +? amount)
  modify (λ s. record s { total_supply = some new_total })

unfoldable pub burn : Env → ℕ → ℤ → M State Unit
unfolding require_minter set_balance
burn env from amount = do
  minter ← require_minter
  require_auth env minter
  panic_if (leb_ℤ amount (pos 0)) (yt YtError.zero_amount)
  bal ← gets (λ s. get_amount s.balances from)
  panic_if (ltb_ℤ bal amount) (yt YtError.insufficient_balance)
  settle from
  less ← lift (bal -? amount)
  set_balance from less
  total ← gets (λ s. unwrap_or s.total_supply (pos 0))
  new_total ← lift (total -? amount)
  modify (λ s. record s { total_supply = some new_total })

unfoldable pub seize : Env → ℕ → ℕ → ℤ → M State ℤ
unfolding require_escrow set_balance
seize env caller account amount = do
  require_auth env caller
  escrow ← require_escrow
  panic_if (not (caller == escrow)) (yt YtError.not_recovery_escrow)
  panic_if (leb_ℤ amount (pos 0)) (yt YtError.zero_amount)
  bal ← gets (λ s. get_amount s.balances account)
  panic_if (ltb_ℤ bal amount) (yt YtError.insufficient_balance)
  settle account
  settle caller
  less ← lift (bal -? amount)
  set_balance account less
  to_balance ← gets (λ s. get_amount s.balances caller)
  more ← lift (to_balance +? amount)
  set_balance caller more
  pure amount
