-- ===== src/Tests/PtUnit/Seizures.antt =====
-- The unit tests of PTToken: seizures by the recovery escrow.
use principal.Base.{ℕ, Bool, true, false, not, ◌≡◌, refl, List, [], ◌∷◌, ◌&&◌, ◌==◌}
use principal.Base.Int.{ℤ, pos, negsuc, ltb_ℤ}
use principal.Host.{M, pure, gets, ◌>>=◌, ◌>>◌}
use principal.Tests.Unit.{passes, should_panic, all, eq_ℤ}
use principal.Tests.Chain.{admin}
use principal.Tests.PtUnit.{
  Test, empty, setup, grant, set_minter, set_recovery_escrow, mint, seize, balance_is,
}
use principal.Pt

abbrev escrow : ℕ
escrow = 9

abbrev bad_actor : ℕ
bad_actor = 5

-- Minter and escrow are wired and the account holds an amount.
abbrev wired : ℕ → Test Unit
wired n = do
  setup
  set_minter admin 4
  set_recovery_escrow escrow
  grant bad_actor
  mint bad_actor n

abbrev seize_moves_balance_to_escrow_without_holder_auth : Test Bool
seize_moves_balance_to_escrow_without_holder_auth = do
  wired 500
  seized ← seize escrow bad_actor 500
  drained ← balance_is bad_actor 0
  received ← balance_is escrow 500
  pure (eq_ℤ seized (pos 500) && drained && received)

abbrev seize_requires_configured_escrow_caller : Test ℤ
seize_requires_configured_escrow_caller = do wired 500; seize 3 bad_actor 500

abbrev set_recovery_escrow_twice_panics : Test Unit
set_recovery_escrow_twice_panics = do setup; set_recovery_escrow 8; set_recovery_escrow 9

abbrev seize_rejects_zero_amount : Test ℤ
seize_rejects_zero_amount = do wired 100; seize escrow bad_actor 0

abbrev seize_cannot_exceed_target_balance : Test ℤ
seize_cannot_exceed_target_balance = do wired 100; seize escrow bad_actor 200

abbrev suite : List Bool
suite =
    passes empty seize_moves_balance_to_escrow_without_holder_auth
    ∷ should_panic empty seize_requires_configured_escrow_caller
    ∷ should_panic empty set_recovery_escrow_twice_panics
    ∷ should_panic empty seize_rejects_zero_amount
    ∷ should_panic empty seize_cannot_exceed_target_balance
    ∷ []

suite_lem : all suite ≡ true
unfolding principal.Permissioning.initialize Pt.initialize Pt.set_minter Pt.set_recovery_escrow
    principal.Permissioning.grant_account principal.Permissioning.grant_asset Pt.mint
    principal.Permissioning.is_allowed principal.Permissioning.is_allowed_for_asset
    principal.Host.checked principal.Host.in_i128 principal.Base.Int.◌+ℤ◌
    principal.Base.Balances.get_amount Pt.seize principal.Base.Balances.set_amount
    principal.Base.Int.◌-ℤ◌ Pt.balance
suite_lem = refl
