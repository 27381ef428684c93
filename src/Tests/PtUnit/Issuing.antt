-- ===== src/Tests/PtUnit/Issuing.antt =====
-- The unit tests of PTToken: its set-up, mints and burns.
use principal.Base.{ℕ, Bool, true, false, not, ◌≡◌, refl, List, [], ◌∷◌, ◌&&◌, ◌==◌}
use principal.Base.Int.{ℤ, pos, negsuc, ltb_ℤ}
use principal.Host.{M, pure, gets, ◌>>=◌, ◌>>◌}
use principal.Tests.Unit.{same_text, passes, should_panic, all}
use principal.Tests.Chain.{contract_id, admin, underlying, perm_id, ask, view, set_authorized}
use principal.Tests.PtUnit.{
  Test, empty, initialize, setup, grant, set_minter, set_recovery_escrow, mint, burn, balance_is,
  supply_is, number_is, max_u64,
}
use principal.Pt
use principal.Tests.Chain

abbrev minter : ℕ
minter = 4

abbrev user : ℕ
user = 5

-- The minter is wired and the account cleared.
abbrev ready : Test Unit
ready = do setup; set_minter admin minter; grant user

abbrev initialize_rejects_admin_not_matching_sac_admin : Test Unit
initialize_rejects_admin_not_matching_sac_admin = do Chain.registered; initialize 3

abbrev mint_requires_minter_set : Test Unit
mint_requires_minter_set = do setup; grant user; mint user 100

abbrev mint_and_balance : Test Bool
mint_and_balance = do
  ready
  mint user 1000
  held ← balance_is user 1000
  supply ← supply_is 1000
  pure (held && supply)

abbrev mint_without_sac_authorization_panics : Test Unit
mint_without_sac_authorization_panics = do
  setup
  set_minter admin minter
  Chain.grant_account user
  Chain.grant_asset contract_id user
  set_authorized user false
  mint user 100

abbrev set_minter_twice_panics : Test Unit
set_minter_twice_panics = do setup; set_minter admin 3; set_minter admin 4

abbrev burn_reduces_supply : Test Bool
burn_reduces_supply = do
  ready
  mint user 1000
  burn user 400
  held ← balance_is user 600
  supply ← supply_is 600
  pure (held && supply)

abbrev double_initialize_panics : Test Unit
double_initialize_panics = do setup; initialize admin

abbrev views_and_getters : Test Bool
views_and_getters = do
  setup
  set_minter admin minter
  set_recovery_escrow 9
  places ← view (λ s. Pt.decimals s == 7)
  named ← ask Pt.name
  ticker ← ask Pt.symbol
  supply ← supply_is 0
  due ← number_is Pt.maturity max_u64
  wired ← number_is Pt.minter minter
  owner ← number_is Pt.get_admin admin
  escrow ← number_is Pt.recovery_escrow 9
  asset ← number_is Pt.underlying_address underlying
  registry ← number_is Pt.permissioning_address perm_id
  pure (
      places
      && same_text named "Principal Token USDY"
      && same_text ticker "PT-USDY"
      && supply
      && due
      && wired
      && owner
      && escrow
      && asset
      && registry)

abbrev set_minter_by_non_admin_panics : Test Unit
set_minter_by_non_admin_panics = do setup; set_minter 3 minter

abbrev mint_zero_amount_panics : Test Unit
mint_zero_amount_panics = do ready; mint user 0

abbrev burn_zero_amount_panics : Test Unit
burn_zero_amount_panics = do ready; mint user 100; burn user 0

abbrev burn_insufficient_balance_panics : Test Unit
burn_insufficient_balance_panics = do ready; mint user 100; burn user 200

abbrev suite : List Bool
suite =
    should_panic empty initialize_rejects_admin_not_matching_sac_admin
    ∷ should_panic empty mint_requires_minter_set
    ∷ passes empty mint_and_balance
    ∷ should_panic empty mint_without_sac_authorization_panics
    ∷ should_panic empty set_minter_twice_panics
    ∷ passes empty burn_reduces_supply
    ∷ should_panic empty double_initialize_panics
    ∷ passes empty views_and_getters
    ∷ should_panic empty set_minter_by_non_admin_panics
    ∷ should_panic empty mint_zero_amount_panics
    ∷ should_panic empty burn_zero_amount_panics
    ∷ should_panic empty burn_insufficient_balance_panics
    ∷ []

suite_lem : all suite ≡ true
unfolding principal.Permissioning.initialize Pt.initialize principal.Permissioning.grant_account
    principal.Permissioning.grant_asset Pt.mint Pt.set_minter principal.Permissioning.is_allowed
    principal.Permissioning.is_allowed_for_asset principal.Host.checked principal.Host.in_i128
    principal.Base.Int.◌+ℤ◌ principal.Base.Balances.get_amount Pt.balance
    principal.Base.Balances.set_amount Pt.total_supply Pt.burn principal.Base.Int.◌-ℤ◌
    Pt.set_recovery_escrow Pt.name Pt.symbol Pt.maturity Pt.minter Pt.get_admin Pt.recovery_escrow
    Pt.decimals
suite_lem = refl
