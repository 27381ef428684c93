-- ===== src/Tests/ManagerUnit/Wiring.antt =====
-- The unit tests of PrincipalManager: its set-up, the contracts that it refuses, and its
-- administrator.
use principal.Base.{Bool, true, ◌≡◌, refl, List, [], ◌∷◌, ◌==◌, ◌+◌}
use principal.Host.{pure, ◌>>=◌, ◌>>◌}
use principal.Tests.Unit.{passes, should_panic, all}
use principal.Tests.Chain.{
  admin, underlying, perm_id, ask, call, set_authorized, contract_id, oracle_id, at_time,
}
use principal.Tests.ManagerUnit.{
  surroundings, Test, empty, initialize, topology_base, initialize_sy, initialize_pt, initialize_yt,
  setup, t0, max_u64, oracle_admin,
}
use principal.Manager
use principal.Token.Simple.{simple}
use principal.Tests.Chain

abbrev admin_transfer : Test Bool
admin_transfer = do
  setup max_u64
  call (λ v env. Manager.own simple (Manager.transfer_admin env admin 7))
  now ← ask (Manager.own simple Manager.get_admin)
  pure (now == 7)

abbrev initialize_rejects_admin_not_matching_sac_admin : Test Unit
initialize_rejects_admin_not_matching_sac_admin = do
  surroundings oracle_admin Chain.perm_admin
  initialize 8 max_u64

abbrev initialize_rejects_mismatched_underlying : Test Unit
initialize_rejects_mismatched_underlying = do
  topology_base
  Chain.deploy_asset 21 admin
  initialize_sy
  initialize_pt 21 max_u64
  initialize_yt perm_id oracle_id max_u64
  initialize admin max_u64

abbrev initialize_rejects_mismatched_permissioning : Test Unit
initialize_rejects_mismatched_permissioning = do
  topology_base
  Chain.deploy_registry 31 admin
  initialize_sy
  initialize_pt underlying max_u64
  initialize_yt 31 oracle_id max_u64
  initialize admin max_u64

abbrev initialize_rejects_mismatched_maturity : Test Unit
initialize_rejects_mismatched_maturity = do
  topology_base
  initialize_sy
  initialize_pt underlying (t0 + 500)
  initialize_yt perm_id oracle_id (t0 + 500 + 1)
  initialize admin (t0 + 500)

abbrev initialize_rejects_mismatched_oracle : Test Unit
initialize_rejects_mismatched_oracle = do
  topology_base
  Chain.deploy_oracle 41 admin
  Chain.publish_at 41 admin 10000000 t0
  initialize_sy
  initialize_pt underlying max_u64
  initialize_yt perm_id 41 max_u64
  initialize admin max_u64

abbrev double_initialize_panics : Test Unit
double_initialize_panics = do setup max_u64; initialize admin max_u64

abbrev non_admin_cannot_transfer_admin : Test Unit
non_admin_cannot_transfer_admin = do
  setup max_u64
  call (λ v env. Manager.own simple (Manager.transfer_admin env 8 7))

abbrev suite : List Bool
suite =
    passes empty admin_transfer
    ∷ should_panic empty initialize_rejects_admin_not_matching_sac_admin
    ∷ should_panic empty initialize_rejects_mismatched_underlying
    ∷ should_panic empty initialize_rejects_mismatched_permissioning
    ∷ should_panic empty initialize_rejects_mismatched_maturity
    ∷ should_panic empty initialize_rejects_mismatched_oracle
    ∷ should_panic empty double_initialize_panics
    ∷ should_panic empty non_admin_cannot_transfer_admin
    ∷ []

suite_lem : all suite ≡ true
unfolding principal.Oracle.initialize principal.Oracle.set_reference_value
    principal.Permissioning.initialize principal.Sy.initialize principal.Pt.initialize
    principal.Yt.initialize principal.Oracle.is_fresh principal.Oracle.get_reference_value
    Manager.initialize principal.Sy.get_underlying principal.Pt.underlying_address
    principal.Yt.underlying_address principal.Sy.permissioning_address
    principal.Pt.permissioning_address principal.Yt.permissioning_address principal.Pt.maturity
    principal.Yt.maturity principal.Yt.oracle_address principal.Pt.set_minter
    principal.Yt.set_minter principal.Permissioning.grant_account Manager.transfer_admin
    Manager.get_admin
suite_lem = refl
