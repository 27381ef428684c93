-- ===== src/Tests/SyUnit/Withdrawals.antt =====
-- The unit tests of SYWrapper: its withdrawals and transfers.
use principal.Base.{ℕ, Bool, true, false, not, ◌≡◌, refl, List, [], ◌∷◌, ◌&&◌, ◌==◌}
use principal.Base.Int.{ℤ, pos, negsuc, ltb_ℤ}
use principal.Host.{M, pure, gets, ◌>>=◌, ◌>>◌}
use principal.Tests.Unit.{passes, should_panic, all, eq_ℤ}
use principal.Sy
use principal.Tests.Chain.{set_authorized}
use principal.Tests.SyUnit.{
  Test, empty, setup, grant, mint, deposit, withdraw, transfer, balance_is, shares_are,
}

abbrev user : ℕ
user = 5

abbrev stranger : ℕ
stranger = 6

-- An account of the fixture that has deposited.
abbrev deposited : ℕ → Test ℤ
deposited n = do setup; grant user; mint user n; deposit user n

abbrev deauthorized_on_sac_cannot_front_run_seizure_by_self_withdrawing : Test ℤ
deauthorized_on_sac_cannot_front_run_seizure_by_self_withdrawing = do
  shares ← deposited 500000000
  set_authorized user false
  withdraw user shares user

abbrev withdraw_returns_underlying : Test Bool
withdraw_returns_underlying = do
  shares ← deposited 500000000
  out ← withdraw user shares user
  left ← shares_are (pos 0)
  pure (eq_ℤ out (pos 500000000) && left)

abbrev withdraw_to_unpermitted_recipient_panics : Test ℤ
withdraw_to_unpermitted_recipient_panics = do
  shares ← deposited 500000000
  withdraw user shares stranger

abbrev withdraw_more_than_balance_panics : Test ℤ
withdraw_more_than_balance_panics = do deposited 100000000; withdraw user (pos 200000000) user

abbrev transfer_moves_shares_between_eligible_accounts : Test Bool
transfer_moves_shares_between_eligible_accounts = do
  shares ← do setup; grant user; grant 7; mint user 500000000; deposit user 500000000
  moved ← transfer user 7 shares
  sender ← balance_is user (pos 0)
  recipient ← balance_is 7 shares
  total ← shares_are shares
  pure (eq_ℤ moved shares && sender && recipient && total)

abbrev transfer_to_unpermitted_recipient_panics : Test ℤ
transfer_to_unpermitted_recipient_panics = do
  shares ← deposited 500000000
  transfer user stranger shares

abbrev transfer_more_than_balance_panics : Test ℤ
transfer_more_than_balance_panics = do
  setup
  grant user
  grant 7
  mint user 100000000
  deposit user 100000000
  transfer user 7 (pos 200000000)

abbrev suite : List Bool
suite =
    should_panic empty deauthorized_on_sac_cannot_front_run_seizure_by_self_withdrawing
    ∷ passes empty withdraw_returns_underlying
    ∷ should_panic empty withdraw_to_unpermitted_recipient_panics
    ∷ should_panic empty withdraw_more_than_balance_panics
    ∷ passes empty transfer_moves_shares_between_eligible_accounts
    ∷ should_panic empty transfer_to_unpermitted_recipient_panics
    ∷ should_panic empty transfer_more_than_balance_panics
    ∷ []

suite_lem : all suite ≡ true
unfolding principal.Permissioning.initialize Sy.initialize principal.Permissioning.grant_account
    Sy.deposit Sy.deposit_effects principal.Permissioning.is_allowed Sy.underlying_to_shares
    principal.Host.checked principal.Host.in_i128 principal.Base.Int.◌+ℤ◌
    principal.Base.Balances.get_amount Sy.withdraw Sy.withdraw_effects
    principal.Base.Balances.set_amount Sy.shares_to_underlying Sy.exchange_rate
    principal.Host.mul_div principal.Base.Int.◌*ℤ◌ principal.Base.Int.quot_ℤ principal.Base.Int.◌-ℤ◌
    Sy.transfer Sy.balance_of
suite_lem = refl
