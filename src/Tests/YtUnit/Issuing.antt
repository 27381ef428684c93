-- ===== src/Tests/YtUnit/Issuing.antt =====
-- The unit tests of YTToken: its set-up, mints and burns.
use principal.Base.{◌+◌, ℕ, Bool, true, false, not, ◌≡◌, refl, List, [], ◌∷◌, ◌&&◌, ◌==◌}
use principal.Base.Int.{ℤ, pos, negsuc, ltb_ℤ}
use principal.Host.{M, pure, gets, ◌>>=◌, ◌>>◌}
use principal.Tests.Unit.{same_text, passes, should_panic, all, eq_ℤ}
use principal.Tests.Chain.{
  contract_id, oracle_id, at_time, admin, underlying, perm_id, ask, view, set_authorized,
}
use principal.Tests.YtUnit.{
  Test, empty, initialize, setup, grant, set_minter, set_recovery_escrow, mint, burn, balance_is,
  supply_is, number_is, max_u64, units, pending_is, publish, t0, oracle_admin,
}
use principal.Yt
use principal.Oracle
use principal.Tests.Chain

abbrev minter : ℕ
minter = 4

abbrev user : ℕ
user = 5

-- The minter is wired and the account cleared.
abbrev ready : Test Unit
ready = do setup; set_minter admin minter; grant user

abbrev initialize_rejects_admin_not_matching_sac_admin : Test Unit
initialize_rejects_admin_not_matching_sac_admin = do
  at_time t0
  Chain.registered
  Chain.deploy_oracle oracle_id oracle_admin
  initialize 8

abbrev initialize_rejects_stale_oracle : Test Unit
initialize_rejects_stale_oracle = do
  at_time (t0 + 3601)
  Chain.registered
  Chain.deploy_oracle oracle_id oracle_admin
  publish 10000000 t0
  initialize admin

abbrev mint_and_balance : Test Bool
mint_and_balance = do ready; mint user 1000; balance_is user 1000

abbrev mint_without_sac_authorization_panics : Test Unit
mint_without_sac_authorization_panics = do
  setup
  set_minter admin minter
  Chain.grant_account user
  Chain.grant_asset contract_id user
  set_authorized user false
  mint user 1000

abbrev double_initialize_panics : Test Unit
double_initialize_panics = do setup; initialize admin

abbrev set_minter_twice_panics : Test Unit
set_minter_twice_panics = do setup; set_minter admin minter; set_minter admin minter

abbrev views_and_getters : Test Bool
views_and_getters = do
  setup
  set_minter admin minter
  set_recovery_escrow 9
  places ← view (λ s. Yt.decimals s == 7)
  named ← ask Yt.name
  ticker ← ask Yt.symbol
  supply ← supply_is 0
  due ← number_is Yt.maturity max_u64
  wired ← number_is Yt.minter minter
  owner ← number_is Yt.get_admin admin
  escrow ← number_is Yt.recovery_escrow 9
  asset ← number_is Yt.underlying_address underlying
  registry ← number_is Yt.permissioning_address perm_id
  source ← number_is Yt.oracle_address oracle_id
  grant user
  mint user (units 10)
  last ← view (λ s. eq_ℤ (Yt.last_claimed_index user s) (pos 10000000))
  pending ← pending_is user 0
  pure (
      places
      && same_text named "Yield Token USDY"
      && same_text ticker "YT-USDY"
      && supply
      && due
      && wired
      && owner
      && escrow
      && asset
      && registry
      && source
      && last
      && pending)

abbrev set_minter_by_non_admin_panics : Test Unit
set_minter_by_non_admin_panics = do setup; set_minter 8 minter

abbrev mint_to_account_granted_but_not_per_asset_panics : Test Unit
mint_to_account_granted_but_not_per_asset_panics = do
  setup
  set_minter admin minter
  Chain.grant_account user
  set_authorized user true
  mint user (units 10)

abbrev mint_zero_amount_panics : Test Unit
mint_zero_amount_panics = do ready; mint user 0

abbrev burn_zero_amount_panics : Test Unit
burn_zero_amount_panics = do ready; mint user (units 10); burn user 0

abbrev burn_insufficient_balance_panics : Test Unit
burn_insufficient_balance_panics = do ready; mint user (units 10); burn user (units 20)

abbrev suite : List Bool
suite =
    should_panic empty initialize_rejects_admin_not_matching_sac_admin
    ∷ should_panic empty initialize_rejects_stale_oracle
    ∷ passes empty mint_and_balance
    ∷ should_panic empty mint_without_sac_authorization_panics
    ∷ should_panic empty double_initialize_panics
    ∷ should_panic empty set_minter_twice_panics
    ∷ passes empty views_and_getters
    ∷ should_panic empty set_minter_by_non_admin_panics
    ∷ should_panic empty mint_to_account_granted_but_not_per_asset_panics
    ∷ should_panic empty mint_zero_amount_panics
    ∷ should_panic empty burn_zero_amount_panics
    ∷ should_panic empty burn_insufficient_balance_panics
    ∷ []

suite_lem : all suite ≡ true
unfolding principal.Permissioning.initialize Oracle.initialize Yt.initialize
    Oracle.set_reference_value Oracle.is_fresh Oracle.get_reference_value Yt.set_minter
    principal.Permissioning.grant_account principal.Permissioning.grant_asset Yt.mint
    principal.Permissioning.is_allowed principal.Permissioning.is_allowed_for_asset Yt.settle
    principal.Host.checked principal.Host.in_i128 principal.Base.Int.◌+ℤ◌
    principal.Base.Balances.get_amount Yt.balance principal.Base.Balances.set_amount
    Yt.set_recovery_escrow Yt.name Yt.symbol Yt.maturity Yt.minter Yt.get_admin Yt.recovery_escrow
    Yt.oracle_address Yt.decimals Yt.total_supply Yt.last_claimed_index Yt.pending_claim Yt.burn
suite_lem = refl
