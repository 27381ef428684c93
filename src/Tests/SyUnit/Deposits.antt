-- ===== src/Tests/SyUnit/Deposits.antt =====
-- The unit tests of SYWrapper: its set-up and its deposits.
use principal.Base.{ℕ, Bool, true, false, not, ◌≡◌, refl, List, [], ◌∷◌, ◌&&◌, ◌==◌}
use principal.Base.Int.{ℤ, pos, negsuc, ltb_ℤ}
use principal.Host.{M, pure, gets, ◌>>=◌, ◌>>◌}
use principal.Tests.Unit.{passes, should_panic, all, eq_ℤ}
use principal.Tests.SyUnit.{on_wrapper}
use principal.Tests.Chain.{call, admin, underlying, perm_id, ask, view, set_authorized}
use principal.Tests.SyUnit.{
  Test, empty, initialize, setup, grant, mint, deposit, set_paused, set_recovery_escrow, rate_is,
  balance_is, shares_are, underlying_is, address_is,
}
use principal.Sy
use principal.Tests.Chain

abbrev user : ℕ
user = 5

abbrev initialize_rejects_admin_not_matching_sac_admin : Test Unit
initialize_rejects_admin_not_matching_sac_admin = do Chain.registered; initialize 3

abbrev deposit_and_exchange_rate : Test Bool
deposit_and_exchange_rate = do
  setup
  grant user
  mint user 1000000000
  shares ← deposit user 1000000000
  rate ← rate_is (pos 10000000)
  held ← balance_is user (pos 1000000000)
  pure (eq_ℤ shares (pos 1000000000) && rate && held)

abbrev deposit_without_permissioning_grant_panics : Test ℤ
deposit_without_permissioning_grant_panics = do
  setup
  set_authorized user true
  mint user 1000000000
  deposit user 1000000000

abbrev deposit_without_sac_authorization_panics : Test ℤ
deposit_without_sac_authorization_panics = do
  setup
  Chain.grant_account user
  set_authorized user false
  mint user 1000000000
  deposit user 1000000000

abbrev deposit_while_paused_panics : Test ℤ
deposit_while_paused_panics = do
  setup
  grant user
  mint user 100000000
  set_paused admin true
  deposit user 100000000

abbrev unpause_re_enables_deposits : Test Bool
unpause_re_enables_deposits = do
  setup
  grant user
  mint user 200000000
  set_paused admin true
  set_paused admin false
  shares ← deposit user 200000000
  pure (ltb_ℤ (pos 0) shares)

abbrev exchange_rate_stays_at_inception_rate : Test Bool
exchange_rate_stays_at_inception_rate = do
  setup
  grant user
  mint user 1000000000
  deposit user 1000000000
  inception ← rate_is (pos 10000000)
  grant 6
  mint 6 500000000
  deposit 6 500000000
  later ← rate_is (pos 10000000)
  assets ← underlying_is (pos 1500000000)
  shares ← shares_are (pos 1500000000)
  pure (inception && later && assets && shares)

abbrev zero_deposit_panics : Test ℤ
zero_deposit_panics = do setup; grant user; deposit user 0

abbrev balance_of_returns_correct_shares : Test Bool
balance_of_returns_correct_shares = do
  setup
  grant user
  mint user 300000000
  deposit user 300000000
  balance_is user (pos 300000000)

abbrev admin_transfer : Test Bool
admin_transfer = do
  setup
  on_wrapper (λ v env. Sy.transfer_admin env admin 7)
  address_is Sy.get_admin 7

abbrev double_initialize_panics : Test Unit
double_initialize_panics = do setup; initialize admin

abbrev exchange_rate_before_any_deposit_is_rate_scale : Test Bool
exchange_rate_before_any_deposit_is_rate_scale = do
  setup
  rate ← rate_is (pos 10000000)
  assets ← underlying_is (pos 0)
  shares ← shares_are (pos 0)
  pure (rate && assets && shares)

abbrev non_admin_cannot_set_paused : Test Unit
non_admin_cannot_set_paused = do setup; set_paused 3 true

abbrev admin_transfer_and_getters : Test Bool
admin_transfer_and_getters = do
  setup
  set_recovery_escrow 9
  before ← address_is Sy.get_admin admin
  asset ← address_is Sy.underlying_address underlying
  registry ← address_is Sy.permissioning_address perm_id
  escrow ← address_is Sy.recovery_escrow 9
  on_wrapper (λ v env. Sy.transfer_admin env admin 7)
  after ← address_is Sy.get_admin 7
  pure (before && asset && registry && escrow && after)

abbrev suite : List Bool
suite =
    should_panic empty initialize_rejects_admin_not_matching_sac_admin
    ∷ passes empty deposit_and_exchange_rate
    ∷ should_panic empty deposit_without_permissioning_grant_panics
    ∷ should_panic empty deposit_without_sac_authorization_panics
    ∷ should_panic empty deposit_while_paused_panics
    ∷ passes empty unpause_re_enables_deposits
    ∷ passes empty exchange_rate_stays_at_inception_rate
    ∷ should_panic empty zero_deposit_panics
    ∷ passes empty balance_of_returns_correct_shares
    ∷ passes empty admin_transfer
    ∷ should_panic empty double_initialize_panics
    ∷ passes empty exchange_rate_before_any_deposit_is_rate_scale
    ∷ should_panic empty non_admin_cannot_set_paused
    ∷ passes empty admin_transfer_and_getters
    ∷ []

suite_lem : all suite ≡ true
unfolding principal.Permissioning.initialize Sy.initialize principal.Permissioning.grant_account
    Sy.deposit Sy.deposit_effects principal.Permissioning.is_allowed Sy.underlying_to_shares
    principal.Host.checked principal.Host.in_i128 principal.Base.Int.◌+ℤ◌
    principal.Base.Balances.get_amount Sy.exchange_rate principal.Host.mul_div
    principal.Base.Int.◌*ℤ◌ principal.Base.Int.quot_ℤ Sy.balance_of
    principal.Base.Balances.set_amount Sy.set_paused Sy.transfer_admin Sy.get_admin
    Sy.set_recovery_escrow Sy.underlying_address Sy.recovery_escrow
suite_lem = refl
