-- ===== src/Tests/YtUnit/Transfers.antt =====
-- The unit tests of YTToken: transfers and allowances.
use principal.Base.{ℕ, Bool, true, false, not, ◌≡◌, refl, List, [], ◌∷◌, ◌&&◌, ◌==◌}
use principal.Base.Int.{ℤ, pos, negsuc, ltb_ℤ}
use principal.Host.{M, pure, gets, ◌>>=◌, ◌>>◌}
use principal.Tests.Unit.{passes, should_panic, all, eq_ℤ}
use principal.Tests.Chain.{at_sequence, admin, underlying, perm_id, ask, view, set_authorized}
use principal.Tests.YtUnit.{
  Test, empty, setup, grant, set_minter, mint, transfer, approve, transfer_from, balance_is, units,
}
use principal.Yt
use principal.Tests.Chain

abbrev alice : ℕ
alice = 5

abbrev bob : ℕ
bob = 6

abbrev spender : ℕ
spender = 7

abbrev minter_set : Test Unit
minter_set = do setup; set_minter admin 4

-- Two cleared accounts, of which the first holds an amount.
abbrev two_accounts : ℕ → Test Unit
two_accounts n = do minter_set; grant alice; grant bob; mint alice n

abbrev transfer_between_eligible_accounts : Test Bool
transfer_between_eligible_accounts = do
  two_accounts (units 500)
  transfer alice bob (units 200)
  sender ← balance_is alice (units 300)
  recipient ← balance_is bob (units 200)
  pure (sender && recipient)

abbrev revoked_holder_cannot_dump_yt_before_seizure : Test Unit
revoked_holder_cannot_dump_yt_before_seizure = do
  two_accounts (units 500)
  Chain.revoke_account alice
  transfer alice bob (units 100)

abbrev deauthorized_on_sac_cannot_dump_yt_before_seizure : Test Unit
deauthorized_on_sac_cannot_dump_yt_before_seizure = do
  two_accounts (units 500)
  set_authorized alice false
  transfer alice bob (units 100)

abbrev transfer_insufficient_balance_panics : Test Unit
transfer_insufficient_balance_panics = do two_accounts (units 100); transfer alice bob (units 200)

abbrev approve_and_transfer_from : Test Bool
approve_and_transfer_from = do
  two_accounts (units 500)
  approve alice spender (pos (units 300)) 100
  allowed ← view (λ s. eq_ℤ (Yt.allowance alice spender s) (pos (units 300)))
  transfer_from spender alice bob (units 200)
  sender ← balance_is alice (units 300)
  recipient ← balance_is bob (units 200)
  left ← view (λ s. eq_ℤ (Yt.allowance alice spender s) (pos (units 100)))
  pure (allowed && sender && recipient && left)

abbrev transfer_zero_amount_panics : Test Unit
transfer_zero_amount_panics = do two_accounts (units 100); transfer alice bob 0

abbrev transfer_from_exceeding_allowance_panics : Test Unit
transfer_from_exceeding_allowance_panics = do
  two_accounts (units 500)
  approve alice spender (pos (units 100)) 100
  transfer_from spender alice bob (units 200)

abbrev transfer_from_expired_allowance_panics : Test Unit
transfer_from_expired_allowance_panics = do
  two_accounts (units 500)
  approve alice spender (pos (units 200)) 5
  at_sequence 6
  transfer_from spender alice bob (units 200)

abbrev transfer_from_zero_amount_panics : Test Unit
transfer_from_zero_amount_panics = do
  two_accounts (units 500)
  approve alice spender (pos (units 300)) 100
  transfer_from spender alice bob 0

abbrev approve_negative_amount_panics : Test Unit
approve_negative_amount_panics = do setup; grant alice; approve alice spender (negsuc 0) 100

abbrev transfer_from_insufficient_balance_panics : Test Unit
transfer_from_insufficient_balance_panics = do
  two_accounts (units 10)
  approve alice spender (pos (units 500)) 100
  transfer_from spender alice bob (units 20)

abbrev suite : List Bool
suite =
    passes empty transfer_between_eligible_accounts
    ∷ should_panic empty revoked_holder_cannot_dump_yt_before_seizure
    ∷ should_panic empty deauthorized_on_sac_cannot_dump_yt_before_seizure
    ∷ should_panic empty transfer_insufficient_balance_panics
    ∷ passes empty approve_and_transfer_from
    ∷ should_panic empty transfer_zero_amount_panics
    ∷ should_panic empty transfer_from_exceeding_allowance_panics
    ∷ should_panic empty transfer_from_expired_allowance_panics
    ∷ should_panic empty transfer_from_zero_amount_panics
    ∷ should_panic empty approve_negative_amount_panics
    ∷ should_panic empty transfer_from_insufficient_balance_panics
    ∷ []

suite_lem : all suite ≡ true
unfolding principal.Permissioning.initialize principal.Oracle.initialize
    principal.Oracle.set_reference_value Yt.initialize principal.Oracle.is_fresh
    principal.Oracle.get_reference_value Yt.set_minter principal.Permissioning.grant_account
    principal.Permissioning.grant_asset Yt.mint principal.Permissioning.is_allowed
    principal.Permissioning.is_allowed_for_asset Yt.settle principal.Host.checked
    principal.Host.in_i128 principal.Base.Int.◌+ℤ◌ principal.Base.Balances.get_amount Yt.transfer
    principal.Base.Balances.set_amount principal.Base.Int.◌-ℤ◌ Yt.balance
    principal.Permissioning.revoke_account Yt.approve Yt.transfer_from
    principal.Allowance.get_allowance principal.Allowance.set_allowance Yt.allowance
suite_lem = refl
