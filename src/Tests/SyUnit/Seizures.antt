-- ===== src/Tests/SyUnit/Seizures.antt =====
-- The unit tests of SYWrapper: seizures by the recovery escrow.
use principal.Base.{ℕ, Bool, true, false, not, ◌≡◌, refl, List, [], ◌∷◌, ◌&&◌, ◌==◌}
use principal.Base.Int.{ℤ, pos, negsuc, ltb_ℤ}
use principal.Host.{M, pure, gets, ◌>>=◌, ◌>>◌}
use principal.Tests.Unit.{passes, should_panic, all, eq_ℤ}
use principal.Tests.Chain.{admin, underlying}
use principal.Tests.SyUnit.{
  Test, empty, setup, grant, mint, deposit, withdraw, seize, set_paused, set_recovery_escrow,
  balance_is, shares_are, address_is,
}
use principal.Sy

abbrev escrow : ℕ
escrow = 9

abbrev bad_actor : ℕ
bad_actor = 5

abbrev innocent : ℕ
innocent = 6

abbrev set_recovery_escrow_once : Test Bool
set_recovery_escrow_once = do
  setup
  set_recovery_escrow escrow
  address_is Sy.recovery_escrow escrow

abbrev set_recovery_escrow_twice_panics : Test Unit
set_recovery_escrow_twice_panics = do setup; set_recovery_escrow escrow; set_recovery_escrow 8

-- The escrow is wired and the account has deposited.
abbrev wired_with_deposit : ℕ → Test ℤ
wired_with_deposit n = do
  setup
  set_recovery_escrow escrow
  grant bad_actor
  mint bad_actor n
  deposit bad_actor n

abbrev seize_moves_balance_to_escrow_without_holder_auth : Test Bool
seize_moves_balance_to_escrow_without_holder_auth = do
  wired_with_deposit 1000000000
  grant innocent
  mint innocent 1000000000
  deposit innocent 1000000000
  seized ← seize escrow bad_actor 1000000000
  drained ← balance_is bad_actor (pos 0)
  received ← balance_is escrow (pos 1000000000)
  untouched ← balance_is innocent (pos 1000000000)
  total ← shares_are (pos 2000000000)
  pure (eq_ℤ seized (pos 1000000000) && drained && received && untouched && total)

abbrev seize_requires_configured_escrow_caller : Test ℤ
seize_requires_configured_escrow_caller = do
  wired_with_deposit 500000000
  seize 3 bad_actor 500000000

abbrev seize_cannot_exceed_target_balance : Test ℤ
seize_cannot_exceed_target_balance = do
  wired_with_deposit 500000000
  seize escrow bad_actor 600000000

abbrev seize_works_while_paused : Test Bool
seize_works_while_paused = do
  wired_with_deposit 500000000
  set_paused admin true
  seized ← seize escrow bad_actor 500000000
  pure (eq_ℤ seized (pos 500000000))

abbrev escrow_can_unwrap_seized_sy_via_normal_withdraw : Test Bool
escrow_can_unwrap_seized_sy_via_normal_withdraw = do
  wired_with_deposit 500000000
  grant escrow
  seize escrow bad_actor 500000000
  unwrapped ← withdraw escrow (pos 500000000) escrow
  paid ← gets (λ chain. chain.contract.1 underlying escrow == 500000000)
  pure (eq_ℤ unwrapped (pos 500000000) && paid)

abbrev seize_rejects_zero_shares : Test ℤ
seize_rejects_zero_shares = do
  setup
  set_recovery_escrow escrow
  grant bad_actor
  seize escrow bad_actor 0

abbrev suite : List Bool
suite =
    passes empty set_recovery_escrow_once
    ∷ should_panic empty set_recovery_escrow_twice_panics
    ∷ passes empty seize_moves_balance_to_escrow_without_holder_auth
    ∷ should_panic empty seize_requires_configured_escrow_caller
    ∷ should_panic empty seize_cannot_exceed_target_balance
    ∷ passes empty seize_works_while_paused
    ∷ passes empty escrow_can_unwrap_seized_sy_via_normal_withdraw
    ∷ should_panic empty seize_rejects_zero_shares
    ∷ []

suite_lem : all suite ≡ true
unfolding principal.Permissioning.initialize Sy.initialize Sy.set_recovery_escrow Sy.recovery_escrow
    principal.Permissioning.grant_account Sy.deposit Sy.deposit_effects
    principal.Permissioning.is_allowed Sy.underlying_to_shares principal.Host.checked
    principal.Host.in_i128 principal.Base.Int.◌+ℤ◌ principal.Base.Balances.get_amount
    Sy.exchange_rate principal.Host.mul_div principal.Base.Int.◌*ℤ◌ principal.Base.Int.quot_ℤ
    principal.Base.Balances.set_amount Sy.seize principal.Base.Int.◌-ℤ◌ Sy.balance_of Sy.set_paused
    Sy.withdraw Sy.withdraw_effects Sy.shares_to_underlying
suite_lem = refl
