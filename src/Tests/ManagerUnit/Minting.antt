-- ===== src/Tests/ManagerUnit/Minting.antt =====
-- The unit tests of PrincipalManager: mints and supplies.
use principal.Base.{
  ℕ, Bool, true, false, not, ◌≡◌, refl, List, [], ◌∷◌, ◌&&◌, ◌==◌, ◌+◌, ◌-◌, ◌*◌, ◌/◌,
}
use principal.Base.Int.{ℤ, pos, ltb_ℤ}
use principal.Host.{M, pure, gets, ◌>>=◌, ◌>>◌}
use principal.Tests.Unit.{passes, should_panic, all, eq_ℤ}
use principal.Tests.Chain.{
  admin, underlying, perm_id, ask, call, set_authorized, contract_id, oracle_id, at_time,
}
use principal.Tests.ManagerUnit.{
  Test, empty, setup, grant_user, deposit_sy, mint, redeem, claim_yield, minted, answers,
  shares_are, units, t0, max_u64, publish,
}
use principal.Manager
use principal.Token.Simple.{simple}
use principal.Tests.Chain

abbrev user : ℕ
user = 5

abbrev mint_before_maturity : Test Bool
mint_before_maturity = do
  setup max_u64
  grant_user user
  shares ← deposit_sy user (units 100)
  result ← mint user shares
  pt ← answers (Manager.pt_balance simple user) (pos (units 100))
  yt ← answers (Manager.yt_balance simple user) (pos (units 100))
  left ← shares_are user (pos 0)
  held ← shares_are contract_id shares
  pure (
      eq_ℤ result.pt_minted (pos (units 100))
      && eq_ℤ result.yt_minted (pos (units 100))
      && pt
      && yt
      && left
      && held)

abbrev mint_after_maturity_panics : Test Manager.MintResult
mint_after_maturity_panics = do setup t0; minted user 100

abbrev total_supply_tracks_mints : Test Bool
total_supply_tracks_mints = do
  setup max_u64
  grant_user 5
  grant_user 6
  first ← deposit_sy 5 (units 30)
  second ← deposit_sy 6 (units 70)
  mint 5 first
  mint 6 second
  pt ← answers (Manager.total_pt simple) (pos (units 100))
  yt ← answers (Manager.total_yt simple) (pos (units 100))
  pure (pt && yt)

abbrev total_supply_decrements_after_redeem : Test Bool
total_supply_decrements_after_redeem = do
  setup (t0 + 500)
  result ← minted user 100
  pt_before ← answers (Manager.total_pt simple) result.pt_minted
  yt_before ← answers (Manager.total_yt simple) result.yt_minted
  at_time (t0 + 501)
  redeem user result.pt_minted (pos 0)
  pt_after ← answers (Manager.total_pt simple) (pos 0)
  yt_kept ← answers (Manager.total_yt simple) result.yt_minted
  redeem user (pos 0) result.yt_minted
  yt_after ← answers (Manager.total_yt simple) (pos 0)
  pure (pt_before && yt_before && pt_after && yt_kept && yt_after)

abbrev oracle_stale_blocks_mint : Test Manager.MintResult
oracle_stale_blocks_mint = do
  setup max_u64
  grant_user user
  shares ← deposit_sy user (units 10)
  at_time (t0 + 3600 + 1)
  mint user shares

abbrev late_minter_does_not_receive_prior_yield : Test Bool
late_minter_does_not_receive_prior_yield = do
  setup max_u64
  minted user 10
  at_time (t0 + 100)
  publish 11000000 (t0 + 100)
  minted 6 10
  claimed ← claim_yield 6
  pure (eq_ℤ claimed (pos 0))

abbrev unpermissioned_user_cannot_mint : Test Manager.MintResult
unpermissioned_user_cannot_mint = do setup max_u64; mint 8 (pos (units 10))

abbrev deauthorized_on_sac_cannot_mint : Test Manager.MintResult
deauthorized_on_sac_cannot_mint = do
  setup max_u64
  Chain.grant_account user
  set_authorized user false
  mint user (pos (units 10))

abbrev mint_zero_shares_panics : Test Manager.MintResult
mint_zero_shares_panics = do setup max_u64; grant_user user; mint user (pos 0)

abbrev suite : List Bool
suite =
    passes empty mint_before_maturity
    ∷ should_panic empty mint_after_maturity_panics
    ∷ passes empty total_supply_tracks_mints
    ∷ passes empty total_supply_decrements_after_redeem
    ∷ should_panic empty oracle_stale_blocks_mint
    ∷ passes empty late_minter_does_not_receive_prior_yield
    ∷ should_panic empty unpermissioned_user_cannot_mint
    ∷ should_panic empty deauthorized_on_sac_cannot_mint
    ∷ should_panic empty mint_zero_shares_panics
    ∷ []

suite_lem : all suite ≡ true
unfolding principal.Oracle.initialize principal.Oracle.set_reference_value
    principal.Permissioning.initialize principal.Sy.initialize principal.Pt.initialize
    principal.Yt.initialize principal.Oracle.is_fresh principal.Oracle.get_reference_value
    Manager.initialize principal.Sy.get_underlying principal.Pt.underlying_address
    principal.Yt.underlying_address principal.Sy.permissioning_address
    principal.Pt.permissioning_address principal.Yt.permissioning_address principal.Pt.maturity
    principal.Yt.maturity principal.Yt.oracle_address principal.Pt.set_minter
    principal.Yt.set_minter principal.Permissioning.grant_account
    principal.Permissioning.grant_asset principal.Sy.deposit principal.Sy.deposit_effects
    principal.Permissioning.is_allowed principal.Sy.underlying_to_shares principal.Host.checked
    principal.Host.in_i128 principal.Base.Int.◌+ℤ◌ principal.Base.Balances.get_amount Manager.mint
    principal.Host.mul_div principal.Base.Int.◌*ℤ◌ principal.Base.Int.quot_ℤ Manager.mint_calls
    principal.Sy.transfer principal.Base.Balances.set_amount principal.Base.Int.◌-ℤ◌
    principal.Yt.update_yield_index principal.Pt.mint principal.Permissioning.is_allowed_for_asset
    principal.Yt.mint principal.Yt.settle Manager.pt_balance Manager.yt_balance principal.Pt.balance
    principal.Yt.balance principal.Sy.balance_of principal.Sy.exchange_rate Manager.total_pt
    Manager.total_yt principal.Pt.total_supply principal.Yt.total_supply Manager.redeem
    Manager.redeem_pt principal.Pt.burn principal.Sy.withdraw principal.Sy.withdraw_effects
    principal.Sy.shares_to_underlying Manager.redeem_yt principal.Yt.burn principal.Yt.claim_yield
    principal.Yt.advance_index principal.Yt.settle_pending Manager.claim_yield
suite_lem = refl
