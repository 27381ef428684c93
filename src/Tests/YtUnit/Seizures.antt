-- ===== src/Tests/YtUnit/Seizures.antt =====
-- The unit tests of YTToken: seizures by the recovery escrow.
use principal.Base.{ℕ, Bool, true, false, not, ◌≡◌, refl, List, [], ◌∷◌, ◌&&◌, ◌==◌}
use principal.Base.Int.{ℤ, pos, negsuc, ltb_ℤ}
use principal.Host.{M, pure, gets, ◌>>=◌, ◌>>◌}
use principal.Tests.Unit.{passes, should_panic, all, eq_ℤ}
use principal.Tests.Chain.{admin}
use principal.Tests.YtUnit.{
  Test, empty, setup, grant, set_minter, set_recovery_escrow, mint, seize, balance_is, units,
  rate_rises, claim_yield,
}
use principal.Yt

abbrev escrow : ℕ
escrow = 9

abbrev minter : ℕ
minter = 4

abbrev bad_actor : ℕ
bad_actor = 5

-- Minter and escrow are wired and the account holds an amount.
abbrev wired : ℕ → Test Unit
wired n = do
  setup
  set_minter admin minter
  set_recovery_escrow escrow
  grant bad_actor
  mint bad_actor (units n)

abbrev seize_moves_balance_and_settles_both_sides : Test Bool
seize_moves_balance_and_settles_both_sides = do
  wired 1000
  rate_rises 10300000
  seized ← seize escrow bad_actor (units 1000)
  drained ← balance_is bad_actor 0
  received ← balance_is escrow (units 1000)
  holder ← claim_yield minter bad_actor
  taker ← claim_yield minter escrow
  pure (
      eq_ℤ seized (pos (units 1000))
      && drained
      && received
      && ltb_ℤ (pos 0) holder
      && eq_ℤ taker (pos 0))

abbrev seize_requires_configured_escrow_caller : Test ℤ
seize_requires_configured_escrow_caller = do wired 500; seize 8 bad_actor (units 500)

abbrev set_recovery_escrow_twice_panics : Test Unit
set_recovery_escrow_twice_panics = do setup; set_recovery_escrow escrow; set_recovery_escrow escrow

abbrev seize_rejects_zero_amount : Test ℤ
seize_rejects_zero_amount = do wired 10; seize escrow bad_actor 0

abbrev seize_cannot_exceed_target_balance : Test ℤ
seize_cannot_exceed_target_balance = do wired 10; seize escrow bad_actor (units 20)

abbrev suite : List Bool
suite =
    passes empty seize_moves_balance_and_settles_both_sides
    ∷ should_panic empty seize_requires_configured_escrow_caller
    ∷ should_panic empty set_recovery_escrow_twice_panics
    ∷ should_panic empty seize_rejects_zero_amount
    ∷ should_panic empty seize_cannot_exceed_target_balance
    ∷ []

suite_lem : all suite ≡ true
unfolding principal.Permissioning.initialize principal.Oracle.initialize
    principal.Oracle.set_reference_value Yt.initialize principal.Oracle.is_fresh
    principal.Oracle.get_reference_value Yt.set_minter Yt.set_recovery_escrow
    principal.Permissioning.grant_account principal.Permissioning.grant_asset Yt.mint
    principal.Permissioning.is_allowed principal.Permissioning.is_allowed_for_asset Yt.settle
    principal.Host.checked principal.Host.in_i128 principal.Base.Int.◌+ℤ◌
    principal.Base.Balances.get_amount Yt.update_yield_index Yt.advance_index principal.Host.mul_div
    principal.Base.Int.◌*ℤ◌ principal.Base.Int.quot_ℤ Yt.seize principal.Base.Balances.set_amount
    Yt.settle_pending Yt.accrue principal.Base.Int.◌-ℤ◌ Yt.add_pending Yt.claim_yield Yt.balance
suite_lem = refl
