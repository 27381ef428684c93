-- ===== src/Tests/ManagerUnit/Redeeming.antt =====
-- The unit tests of PrincipalManager: redemptions and claims of yield.
use principal.Base.{
  ℕ, Bool, true, false, not, ◌≡◌, refl, List, [], ◌∷◌, ◌&&◌, ◌==◌, ◌+◌, ◌-◌, ◌*◌, ◌/◌,
}
use principal.Base.Int.{ℤ, pos, ltb_ℤ}
use principal.Host.{M, pure, gets, ◌>>=◌, ◌>>◌}
use principal.Tests.Unit.{passes, should_panic, all, eq_ℤ}
use principal.Tests.Chain.{
  admin, underlying, perm_id, ask, call, set_authorized, contract_id, oracle_id, at_time,
}
use principal.Tests.ManagerUnit.{
  Test, empty, setup, redeem, claim_yield, minted, paid_is, units, t0, max_u64, publish, on_yt,
}
use principal.Manager
use principal.Yt
use principal.Tests.Chain

abbrev user : ℕ
user = 5

abbrev maturity : ℕ
maturity = t0 + 500

-- The account has minted, and the market is past its maturity.
abbrev matured : ℕ → Test Manager.MintResult
matured n = do setup maturity; result ← minted user n; at_time (maturity + 1); pure result

-- And the oracle's rate has risen.
abbrev matured_at : ℕ → Test Manager.MintResult
matured_at n = do result ← matured n; publish 10300000 (maturity + 1); pure result

abbrev redeem_before_maturity_panics : Test Manager.RedeemResult
redeem_before_maturity_panics = do
  setup max_u64
  minted user 10
  redeem user (pos (units 10)) (pos 0)

abbrev expected_pt : ℤ
expected_pt = pos (units 100 * 10000000 / 10300000)

abbrev redeem_pt_correct_formula : Test Bool
redeem_pt_correct_formula = do
  result ← matured_at 100
  r ← redeem user result.pt_minted (pos 0)
  paid ← paid_is user expected_pt
  pure (eq_ℤ r.underlying_from_pt expected_pt && eq_ℤ r.underlying_from_yt (pos 0) && paid)

abbrev new_factor : ℕ
new_factor = 10000000 * 10000000 / 10300000

abbrev expected_yt : ℤ
expected_yt = pos (units 100 * (10000000 - new_factor) / 10000000)

abbrev redeem_yt_correct_formula_with_yield : Test Bool
redeem_yt_correct_formula_with_yield = do
  result ← matured_at 100
  r ← redeem user (pos 0) result.yt_minted
  pure (eq_ℤ r.underlying_from_yt expected_yt && eq_ℤ r.underlying_from_pt (pos 0))

abbrev redeem_yt_does_not_double_pay_yield_already_claimed_via_claim_yield : Test Bool
redeem_yt_does_not_double_pay_yield_already_claimed_via_claim_yield = do
  result ← matured_at 100
  direct_claim ← claim_yield user
  paid ← paid_is user direct_claim
  r ← redeem user (pos 0) result.yt_minted
  pure (ltb_ℤ (pos 0) direct_claim && paid && eq_ℤ r.underlying_from_yt (pos 0))

abbrev claim_yield_cannot_be_called_directly_on_yt_token : Test ℤ
claim_yield_cannot_be_called_directly_on_yt_token = do
  matured_at 100
  on_yt (λ v env. Yt.update_yield_index v)
  on_yt (λ v env. Yt.claim_yield env user user)

abbrev redeem_yt_zero_when_no_yield : Test Bool
redeem_yt_zero_when_no_yield = do
  result ← matured 100
  r ← redeem user (pos 0) result.yt_minted
  pure (eq_ℤ r.underlying_from_yt (pos 0))

abbrev oracle_stale_blocks_redeem : Test Manager.RedeemResult
oracle_stale_blocks_redeem = do
  setup maturity
  minted user 10
  at_time (t0 + 3600 + 1)
  redeem user (pos (units 10)) (pos 0)

abbrev revoked_user_cannot_redeem : Test Manager.RedeemResult
revoked_user_cannot_redeem = do
  result ← matured 10
  Chain.revoke_account user
  redeem user result.pt_minted (pos 0)

abbrev deauthorized_on_sac_cannot_redeem : Test Manager.RedeemResult
deauthorized_on_sac_cannot_redeem = do
  result ← matured 10
  set_authorized user false
  redeem user result.pt_minted (pos 0)

abbrev redeem_zero_amounts_panics : Test Manager.RedeemResult
redeem_zero_amounts_panics = do matured 10; redeem user (pos 0) (pos 0)

abbrev suite : List Bool
suite =
    should_panic empty redeem_before_maturity_panics
    ∷ passes empty redeem_pt_correct_formula
    ∷ passes empty redeem_yt_correct_formula_with_yield
    ∷ passes empty redeem_yt_does_not_double_pay_yield_already_claimed_via_claim_yield
    ∷ should_panic empty claim_yield_cannot_be_called_directly_on_yt_token
    ∷ passes empty redeem_yt_zero_when_no_yield
    ∷ should_panic empty oracle_stale_blocks_redeem
    ∷ should_panic empty revoked_user_cannot_redeem
    ∷ should_panic empty deauthorized_on_sac_cannot_redeem
    ∷ should_panic empty redeem_zero_amounts_panics
    ∷ []

suite_lem : all suite ≡ true
unfolding principal.Oracle.initialize principal.Oracle.set_reference_value
    principal.Permissioning.initialize principal.Sy.initialize principal.Pt.initialize Yt.initialize
    principal.Oracle.is_fresh principal.Oracle.get_reference_value Manager.initialize
    principal.Sy.get_underlying principal.Pt.underlying_address Yt.underlying_address
    principal.Sy.permissioning_address principal.Pt.permissioning_address Yt.permissioning_address
    principal.Pt.maturity Yt.maturity Yt.oracle_address principal.Pt.set_minter Yt.set_minter
    principal.Permissioning.grant_account principal.Permissioning.grant_asset principal.Sy.deposit
    principal.Sy.deposit_effects principal.Permissioning.is_allowed
    principal.Sy.underlying_to_shares principal.Host.checked principal.Host.in_i128
    principal.Base.Int.◌+ℤ◌ principal.Base.Balances.get_amount Manager.mint principal.Host.mul_div
    principal.Base.Int.◌*ℤ◌ principal.Base.Int.quot_ℤ Manager.mint_calls principal.Sy.transfer
    principal.Base.Balances.set_amount principal.Base.Int.◌-ℤ◌ Yt.update_yield_index
    principal.Pt.mint principal.Permissioning.is_allowed_for_asset Yt.mint Yt.settle Manager.redeem
    Manager.redeem_pt principal.Pt.burn principal.Sy.exchange_rate principal.Sy.withdraw
    principal.Sy.withdraw_effects principal.Sy.shares_to_underlying Manager.redeem_yt
    Yt.advance_index Yt.burn Yt.settle_pending Yt.accrue Yt.add_pending Yt.claim_yield
    Manager.claim_yield Manager.pay_claim principal.Permissioning.revoke_account
suite_lem = refl
