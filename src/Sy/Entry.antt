-- ===== src/Sy/Entry.antt =====
-- SYWrapper: the entry points that write.
use principal.Base.{ℕ, Bool, false, not, some, ◌==◌, is_some, unwrap_or}
use principal.Base.Int.{ℤ, pos, ltb_ℤ, leb_ℤ}
use principal.Base.Balances.{get_amount}
use principal.Host.{
  and_then, Env, Views, ok, M, pure, lift, gets, modify, panic_if, ◌>>=◌, ◌>>◌, require_auth, ◌+?◌,
  ◌-?◌, called_by,
}
use principal.Host.Errors.{SyError, sy}
use principal.Token.{Token}
use principal.Sy.Store.{
  State, get_underlying, require_escrow, assert_admin, assert_not_paused, assert_permitted,
  assert_sac_authorized, underlying_to_shares, shares_to_underlying, add_balance, sub_balance,
}

unfoldable pub initialize : Views → Env → ℕ → ℕ → ℕ → M State Unit
initialize views env admin underlying permissioning = do
  initialized ← gets (λ s. is_some s.admin)
  panic_if initialized (sy SyError.already_initialized)
  require_auth env admin
  sac_admin ← lift (views.sac_admin underlying)
  panic_if (not (admin == sac_admin)) (sy SyError.issuer_mismatch)
  modify (λ s. record s {
    admin = some admin;
    underlying = some underlying;
    permissioning = some permissioning;
    total_underlying = some (pos 0);
    total_shares = some (pos 0);
    paused = some false;
  })

unfoldable pub transfer : Views → Env → ℕ → ℕ → ℤ → M State ℤ
unfolding assert_not_paused assert_sac_authorized assert_permitted sub_balance add_balance
transfer views env from to amount = do
  require_auth env from
  assert_not_paused
  assert_sac_authorized views from
  assert_sac_authorized views to
  assert_permitted views from
  assert_permitted views to
  panic_if (leb_ℤ amount (pos 0)) (sy SyError.zero_amount)
  balance ← gets (λ s. get_amount s.balances from)
  panic_if (ltb_ℤ balance amount) (sy SyError.insufficient_shares)
  sub_balance from amount
  add_balance to amount
  pure amount

-- `deposit` up to the call of the token: the checks and the effects. It returns the asset to call
-- and the shares.
unfoldable pub deposit_effects : Views → Env → ℕ → ℤ → M State (ℕ × ℤ)
unfolding assert_not_paused assert_sac_authorized assert_permitted add_balance get_underlying
deposit_effects views env from amount = do
  require_auth env from
  assert_not_paused
  assert_sac_authorized views from
  assert_permitted views from
  panic_if (leb_ℤ amount (pos 0)) (sy SyError.zero_amount)
  computed ← gets (underlying_to_shares amount)
  shares ← lift computed
  panic_if (leb_ℤ shares (pos 0)) (sy SyError.zero_amount)
  total_u ← gets (λ s. unwrap_or s.total_underlying (pos 0))
  total_s ← gets (λ s. unwrap_or s.total_shares (pos 0))
  new_u ← lift (total_u +? amount)
  modify (λ s. record s { total_underlying = some new_u })
  new_s ← lift (total_s +? shares)
  modify (λ s. record s { total_shares = some new_s })
  add_balance from shares
  underlying ← get_underlying
  pure (underlying, shares)

-- `withdraw` up to the call of the token. It returns the asset to call and the amount to pay out.
unfoldable pub withdraw_effects : Views → Env → ℕ → ℤ → ℕ → M State (ℕ × ℤ)
unfolding assert_not_paused assert_sac_authorized assert_permitted sub_balance get_underlying
withdraw_effects views env from shares to = do
  require_auth env from
  assert_not_paused
  assert_sac_authorized views from
  assert_sac_authorized views to
  assert_permitted views from
  assert_permitted views to
  panic_if (leb_ℤ shares (pos 0)) (sy SyError.zero_amount)
  balance ← gets (λ s. get_amount s.balances from)
  panic_if (ltb_ℤ balance shares) (sy SyError.insufficient_shares)
  computed ← gets (shares_to_underlying shares)
  underlying_out ← lift computed
  panic_if (leb_ℤ underlying_out (pos 0)) (sy SyError.zero_amount)
  total_u ← gets (λ s. unwrap_or s.total_underlying (pos 0))
  total_s ← gets (λ s. unwrap_or s.total_shares (pos 0))
  new_u ← lift (total_u -? underlying_out)
  modify (λ s. record s { total_underlying = some new_u })
  new_s ← lift (total_s -? shares)
  modify (λ s. record s { total_shares = some new_s })
  sub_balance from shares
  underlying ← get_underlying
  pure (underlying, underlying_out)

module _ (token : Token) where
  open token use {Ledger}

  -- The wrapper together with the token contracts that it calls.
  abbrev pub Joint : Type 0
  Joint = State × Ledger

  unfoldable pub deposit : Views → Env → ℕ → ℤ → M Joint ℤ
  deposit views env from amount j = and_then (deposit_effects views env from amount j.0) (λ r.
      let underlying = r.0.0 in
      let shares = r.0.1 in
      and_then (token.transfer underlying (called_by env underlying) from env.current amount j.1)
        (λ ledger. ok (shares, (r.1, ledger))))

  unfoldable pub withdraw : Views → Env → ℕ → ℤ → ℕ → M Joint ℤ
  withdraw views env from shares to j =
      and_then (withdraw_effects views env from shares to j.0) (λ r.
        let underlying = r.0.0 in
        let underlying_out = r.0.1 in
        and_then
          (token.transfer underlying (called_by env underlying) env.current to underlying_out j.1)
          (λ ledger. ok (underlying_out, (r.1, ledger))))

unfoldable pub set_paused : Env → ℕ → Bool → M State Unit
unfolding assert_admin
set_paused env caller paused = do
  assert_admin env caller
  modify (λ s. record s { paused = some paused })

unfoldable pub transfer_admin : Env → ℕ → ℕ → M State Unit
unfolding assert_admin
transfer_admin env current_admin new_admin = do
  assert_admin env current_admin
  modify (λ s. record s { admin = some new_admin })

unfoldable pub set_recovery_escrow : Env → ℕ → ℕ → M State Unit
unfolding assert_admin
set_recovery_escrow env admin escrow = do
  assert_admin env admin
  wired ← gets (λ s. is_some s.recovery_escrow)
  panic_if wired (sy SyError.recovery_escrow_already_set)
  modify (λ s. record s { recovery_escrow = some escrow })

unfoldable pub seize : Env → ℕ → ℕ → ℤ → M State ℤ
unfolding require_escrow sub_balance add_balance
seize env caller account shares = do
  require_auth env caller
  escrow ← require_escrow
  panic_if (not (caller == escrow)) (sy SyError.not_recovery_escrow)
  panic_if (leb_ℤ shares (pos 0)) (sy SyError.zero_amount)
  balance ← gets (λ s. get_amount s.balances account)
  panic_if (ltb_ℤ balance shares) (sy SyError.insufficient_shares)
  sub_balance account shares
  add_balance caller shares
  pure shares
