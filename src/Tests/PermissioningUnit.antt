-- ===== src/Tests/PermissioningUnit.antt =====
-- The unit tests of Permissioning (contracts/permissioning/src/lib.rs).
use principal.Base.{ℕ, Bool, true, not, ◌≡◌, refl, List, [], ◌∷◌, ◌&&◌, ◌==◌}
use principal.Host.{M, pure, gets, ◌>>=◌, ◌>>◌}
use principal.Permissioning.{
  State, empty, initialize, grant_account, revoke_account, grant_accounts, is_allowed, grant_asset,
  revoke_asset, is_allowed_for_asset, transfer_admin, get_admin,
}
use principal.Tests.Unit.{mocked, passes, should_panic, all}

abbrev admin : ℕ
admin = 1

abbrev user : ℕ
user = 2

abbrev asset : ℕ
asset = 20

abbrev setup : M State Unit
setup = initialize admin

abbrev grant_and_check_account : M State Bool
grant_and_check_account = do
  setup
  before ← gets (is_allowed user)
  grant_account (mocked 0) admin user
  after ← gets (is_allowed user)
  pure (not before && after)

abbrev revoke_account_test : M State Bool
revoke_account_test = do
  setup
  grant_account (mocked 0) admin user
  revoke_account (mocked 0) admin user
  after ← gets (is_allowed user)
  pure (not after)

abbrev grant_and_revoke_asset : M State Bool
grant_and_revoke_asset = do
  setup
  grant_asset (mocked 0) admin user asset
  granted ← gets (is_allowed_for_asset user asset)
  revoke_asset (mocked 0) admin user asset
  kept ← gets (is_allowed_for_asset user asset)
  pure (granted && not kept)

abbrev batch_grant_accounts : M State Bool
batch_grant_accounts = do
  setup
  grant_accounts (mocked 0) admin (2 ∷ 3 ∷ 4 ∷ [])
  first ← gets (is_allowed 2)
  second ← gets (is_allowed 3)
  third ← gets (is_allowed 4)
  pure (first && second && third)

abbrev unauthorized_grant_panics : M State Unit
unauthorized_grant_panics = do setup; grant_account (mocked 0) 5 6

abbrev admin_transfer : M State Bool
admin_transfer = do setup; transfer_admin (mocked 0) admin 7; now ← get_admin; pure (now == 7)

abbrev double_initialize_panics : M State Unit
double_initialize_panics = do setup; initialize admin

abbrev suite : List Bool
suite =
    passes empty grant_and_check_account
    ∷ passes empty revoke_account_test
    ∷ passes empty grant_and_revoke_asset
    ∷ passes empty batch_grant_accounts
    ∷ should_panic empty unauthorized_grant_panics
    ∷ passes empty admin_transfer
    ∷ should_panic empty double_initialize_panics
    ∷ []

suite_lem : all suite ≡ true
unfolding initialize grant_account is_allowed revoke_account grant_asset revoke_asset
    is_allowed_for_asset grant_accounts principal.Permissioning.grant_each transfer_admin get_admin
suite_lem = refl
