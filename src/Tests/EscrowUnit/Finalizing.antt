-- ===== src/Tests/EscrowUnit/Finalizing.antt =====
-- The unit tests of RecoveryEscrow: redemptions of seized positions after maturity.
use principal.Base.{
  ℕ, Bool, true, false, not, ◌≡◌, refl, List, [], ◌∷◌, ◌&&◌, ◌==◌, ◌+◌, ◌-◌, ◌*◌, ◌/◌,
}
use principal.Base.Int.{ℤ, pos, ltb_ℤ}
use principal.Host.{M, pure, gets, ◌>>=◌, ◌>>◌}
use principal.Tests.Unit.{passes, should_panic, all, eq_ℤ}
use principal.Tests.Chain.{
  admin, underlying, perm_id, ask, call, set_authorized, contract_id, oracle_id, at_time,
}
use principal.Tests.EscrowUnit.{
  Test, empty, setup_with_maturity, minted, seize_pt, seize_yt, finalize_pt, finalize_yt, paid_is,
  pt_is, yt_is, escrow_id,
}
use principal.Tests.ManagerUnit.{t0}
use principal.Tests.Chain

abbrev bad_actor : ℕ
bad_actor = 5

abbrev maturity : ℕ
maturity = t0 + 500

-- The PT of an account has been seized, and the market is past its maturity.
abbrev seized_pt : ℕ → Test ℤ
seized_pt n = do
  setup_with_maturity maturity
  result ← minted bad_actor n
  set_authorized bad_actor false
  seized ← seize_pt admin bad_actor result.pt_minted
  at_time (maturity + 1)
  pure seized

abbrev finalize_pt_redeems_seized_position_after_maturity : Test Bool
finalize_pt_redeems_seized_position_after_maturity = do
  seized ← seized_pt 1000000000
  released ← finalize_pt admin seized
  left ← pt_is escrow_id (pos 0)
  paid ← paid_is escrow_id released
  pure (eq_ℤ released seized && left && paid)

abbrev finalize_yt_redeems_seized_position_after_maturity : Test Bool
finalize_yt_redeems_seized_position_after_maturity = do
  setup_with_maturity maturity
  result ← minted bad_actor 1000000000
  at_time (maturity + 1)
  Chain.publish_at oracle_id admin 10300000 (maturity + 1)
  set_authorized bad_actor false
  seized ← seize_yt admin bad_actor result.yt_minted
  released ← finalize_yt admin seized
  left ← yt_is escrow_id (pos 0)
  paid ← paid_is escrow_id released
  pure (ltb_ℤ (pos 0) released && left && paid)

abbrev finalize_pt_requires_real_issuer_admin : Test ℤ
finalize_pt_requires_real_issuer_admin = do seized ← seized_pt 500000000; finalize_pt 8 seized

abbrev finalize_pt_rejects_zero_amount : Test ℤ
finalize_pt_rejects_zero_amount = do
  setup_with_maturity maturity
  at_time (maturity + 1)
  finalize_pt admin (pos 0)

abbrev finalize_yt_rejects_zero_amount : Test ℤ
finalize_yt_rejects_zero_amount = do
  setup_with_maturity maturity
  at_time (maturity + 1)
  finalize_yt admin (pos 0)

abbrev suite : List Bool
suite =
    passes empty finalize_pt_redeems_seized_position_after_maturity
    ∷ passes empty finalize_yt_redeems_seized_position_after_maturity
    ∷ should_panic empty finalize_pt_requires_real_issuer_admin
    ∷ should_panic empty finalize_pt_rejects_zero_amount
    ∷ should_panic empty finalize_yt_rejects_zero_amount
    ∷ []

suite_lem : all suite ≡ true
unfolding principal.Oracle.initialize principal.Oracle.set_reference_value
    principal.Permissioning.initialize principal.Sy.initialize principal.Pt.initialize
    principal.Yt.initialize principal.Oracle.is_fresh principal.Oracle.get_reference_value
    principal.Manager.initialize principal.Sy.get_underlying principal.Pt.underlying_address
    principal.Yt.underlying_address principal.Sy.permissioning_address
    principal.Pt.permissioning_address principal.Yt.permissioning_address principal.Pt.maturity
    principal.Yt.maturity principal.Yt.oracle_address principal.Pt.set_minter
    principal.Yt.set_minter principal.Permissioning.grant_account principal.Escrow.initialize
    principal.Manager.underlying_address principal.Sy.set_recovery_escrow
    principal.Pt.set_recovery_escrow principal.Yt.set_recovery_escrow
    principal.Permissioning.grant_asset principal.Sy.deposit principal.Sy.deposit_effects
    principal.Permissioning.is_allowed principal.Sy.underlying_to_shares principal.Host.checked
    principal.Host.in_i128 principal.Base.Int.◌+ℤ◌ principal.Base.Balances.get_amount
    principal.Manager.mint principal.Host.mul_div principal.Base.Int.◌*ℤ◌ principal.Base.Int.quot_ℤ
    principal.Manager.mint_calls principal.Sy.transfer principal.Base.Balances.set_amount
    principal.Base.Int.◌-ℤ◌ principal.Yt.update_yield_index principal.Pt.mint
    principal.Permissioning.is_allowed_for_asset principal.Yt.mint principal.Yt.settle
    principal.Escrow.seize_pt principal.Pt.seize principal.Escrow.finalize_pt
    principal.Manager.redeem principal.Manager.redeem_pt principal.Pt.burn
    principal.Sy.exchange_rate principal.Sy.withdraw principal.Sy.withdraw_effects
    principal.Sy.shares_to_underlying principal.Pt.balance principal.Escrow.seize_yt
    principal.Yt.seize principal.Escrow.finalize_yt principal.Manager.redeem_yt
    principal.Yt.advance_index principal.Yt.burn principal.Yt.settle_pending principal.Yt.accrue
    principal.Yt.add_pending principal.Yt.claim_yield principal.Yt.balance
suite_lem = refl
