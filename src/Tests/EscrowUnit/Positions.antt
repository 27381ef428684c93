-- ===== src/Tests/EscrowUnit/Positions.antt =====
-- The unit tests of RecoveryEscrow: its set-up and its seizures.
use principal.Base.{
  put, ℕ, Bool, true, false, not, ◌≡◌, refl, List, [], ◌∷◌, ◌&&◌, ◌==◌, ◌+◌, ◌-◌, ◌*◌, ◌/◌,
}
use principal.Base.Int.{ℤ, pos, ltb_ℤ}
use principal.Host.{modify, M, pure, gets, ◌>>=◌, ◌>>◌}
use principal.Tests.Unit.{passes, should_panic, all, eq_ℤ}
use principal.Tests.Chain.{
  call_at, admin, underlying, perm_id, ask, call, set_authorized, contract_id, oracle_id, at_time,
}
use principal.Tests.EscrowUnit.{
  Test, empty, setup, initialize, grant_sy, mint_underlying, grant_and_fund, deposit, minted,
  seize_sy, seize_pt, seize_yt, in_market, paid_is, pt_is, yt_is, escrow_id,
}
use principal.Tests.ManagerUnit
use principal.Tests.ManagerUnit.{sy_id, pt_id, yt_id, max_u64}
use principal.World.{call_pt}
use principal.Pt
use principal.Manager
use principal.Escrow
use principal.Token.Simple.{simple}
use principal.Tests.Chain

abbrev bad_actor : ℕ
bad_actor = 5

-- A cleared account has deposited.
abbrev deposited : ℕ → Test ℤ
deposited n = do setup; grant_sy bad_actor; mint_underlying bad_actor n; deposit bad_actor n

-- An account has minted and the asset contract has deauthorized it.
abbrev minted_then_deauthorized : Test Manager.MintResult
minted_then_deauthorized = do
  setup
  result ← minted bad_actor 500000000
  set_authorized bad_actor false
  pure result

abbrev seize_sy_unwraps_immediately_for_native_clawback : Test Bool
seize_sy_unwraps_immediately_for_native_clawback = do
  deposited 1000000000
  set_authorized bad_actor false
  unwrapped ← seize_sy admin bad_actor 1000000000
  paid ← paid_is escrow_id (pos 1000000000)
  left ← in_market (ManagerUnit.shares_are bad_actor (pos 0))
  pure (eq_ℤ unwrapped (pos 1000000000) && paid && left)

abbrev seize_sy_requires_real_issuer_admin : Test ℤ
seize_sy_requires_real_issuer_admin = do
  deposited 500000000
  set_authorized bad_actor false
  seize_sy 8 bad_actor 500000000

abbrev seize_sy_requires_target_already_deauthorized : Test ℤ
seize_sy_requires_target_already_deauthorized = do
  deposited 500000000
  seize_sy admin bad_actor 500000000

-- A second escrow contract.
abbrev another_escrow : Test Unit
another_escrow = modify (λ chain. record chain { contract = (Escrow.empty, chain.contract.1) })

-- A PTToken contract at another address.
abbrev register_pt : ℕ → Test Unit
register_pt a = modify (λ chain.
    let around = chain.contract.1 in
    let world = around.1 in
    record chain {
      contract = (chain.contract.0, (around.0, record world { pts = put world.pts a Pt.empty }));
    })

abbrev register_manager : ℕ → Test Unit
register_manager a = modify (λ chain.
    let around = chain.contract.1 in
    record chain { contract = (chain.contract.0, (put around.0 a Manager.empty, around.1)) })

abbrev initialize_rejects_position_with_different_underlying : Test Unit
initialize_rejects_position_with_different_underlying = do
  setup
  Chain.deploy_asset 21 8
  register_pt 15
  call_at 15 (λ v env. Escrow.call simple (
      call_pt simple 15
        (Pt.initialize v env 8 perm_id 21 max_u64 "Principal Token BENJI" "PT-BENJI" 7)))
  another_escrow
  initialize 15 contract_id

-- The manager of another market over the contracts of this one.
abbrev mismatched_manager : Test Unit
mismatched_manager = do
  setup
  Chain.deploy_asset 21 8
  Chain.deploy_oracle 41 8
  register_manager 17
  call_at 17 (λ v env.
      Escrow.call_manager simple 17
        (Manager.initialize simple v env 8 sy_id pt_id yt_id 41 perm_id 21 max_u64))

abbrev initialize_rejects_principal_manager_with_different_underlying : Test Unit
initialize_rejects_principal_manager_with_different_underlying = do
  mismatched_manager
  another_escrow
  initialize pt_id 17

abbrev seize_pt_moves_balance_to_escrow : Test Bool
seize_pt_moves_balance_to_escrow = do
  result ← minted_then_deauthorized
  seized ← seize_pt admin bad_actor result.pt_minted
  drained ← pt_is bad_actor (pos 0)
  received ← pt_is escrow_id result.pt_minted
  pure (eq_ℤ seized result.pt_minted && drained && received)

abbrev seize_yt_moves_balance_to_escrow : Test Bool
seize_yt_moves_balance_to_escrow = do
  result ← minted_then_deauthorized
  seized ← seize_yt admin bad_actor result.yt_minted
  drained ← yt_is bad_actor (pos 0)
  received ← yt_is escrow_id result.yt_minted
  pure (eq_ℤ seized result.yt_minted && drained && received)

abbrev double_initialize_panics : Test Unit
double_initialize_panics = do setup; initialize pt_id contract_id

abbrev seize_sy_rejects_zero_shares : Test ℤ
seize_sy_rejects_zero_shares = do
  setup
  grant_and_fund bad_actor 500000000
  deposit bad_actor 500000000
  set_authorized bad_actor false
  seize_sy admin bad_actor 0

abbrev seize_pt_rejects_zero_amount : Test ℤ
seize_pt_rejects_zero_amount = do minted_then_deauthorized; seize_pt admin bad_actor (pos 0)

abbrev seize_yt_rejects_zero_amount : Test ℤ
seize_yt_rejects_zero_amount = do minted_then_deauthorized; seize_yt admin bad_actor (pos 0)

abbrev suite : List Bool
suite =
    passes empty seize_sy_unwraps_immediately_for_native_clawback
    ∷ should_panic empty seize_sy_requires_real_issuer_admin
    ∷ should_panic empty seize_sy_requires_target_already_deauthorized
    ∷ should_panic empty initialize_rejects_position_with_different_underlying
    ∷ should_panic empty initialize_rejects_principal_manager_with_different_underlying
    ∷ passes empty seize_pt_moves_balance_to_escrow
    ∷ passes empty seize_yt_moves_balance_to_escrow
    ∷ should_panic empty double_initialize_panics
    ∷ should_panic empty seize_sy_rejects_zero_shares
    ∷ should_panic empty seize_pt_rejects_zero_amount
    ∷ should_panic empty seize_yt_rejects_zero_amount
    ∷ []

suite_lem : all suite ≡ true
unfolding principal.Oracle.initialize principal.Oracle.set_reference_value
    principal.Permissioning.initialize principal.Sy.initialize Pt.initialize principal.Yt.initialize
    principal.Oracle.is_fresh principal.Oracle.get_reference_value Manager.initialize
    principal.Sy.get_underlying Pt.underlying_address principal.Yt.underlying_address
    principal.Sy.permissioning_address Pt.permissioning_address principal.Yt.permissioning_address
    Pt.maturity principal.Yt.maturity principal.Yt.oracle_address Pt.set_minter
    principal.Yt.set_minter principal.Permissioning.grant_account Escrow.initialize
    Manager.underlying_address principal.Sy.set_recovery_escrow Pt.set_recovery_escrow
    principal.Yt.set_recovery_escrow principal.Permissioning.grant_asset principal.Sy.deposit
    principal.Sy.deposit_effects principal.Permissioning.is_allowed
    principal.Sy.underlying_to_shares principal.Host.checked principal.Host.in_i128
    principal.Base.Int.◌+ℤ◌ principal.Base.Balances.get_amount Escrow.seize_sy principal.Sy.seize
    principal.Base.Balances.set_amount principal.Base.Int.◌-ℤ◌ principal.Sy.withdraw
    principal.Sy.withdraw_effects principal.Sy.shares_to_underlying principal.Sy.exchange_rate
    principal.Host.mul_div principal.Base.Int.◌*ℤ◌ principal.Base.Int.quot_ℤ principal.Sy.balance_of
    Manager.mint Manager.mint_calls principal.Sy.transfer principal.Yt.update_yield_index Pt.mint
    principal.Permissioning.is_allowed_for_asset principal.Yt.mint principal.Yt.settle
    Escrow.seize_pt Pt.seize Pt.balance Escrow.seize_yt principal.Yt.seize principal.Yt.balance
suite_lem = refl

-- Already the manager of the fifth test refuses its contracts, before the escrow is asked.
mismatched_manager_lem : should_panic empty mismatched_manager ≡ true
unfolding principal.Oracle.initialize principal.Oracle.set_reference_value
    principal.Permissioning.initialize principal.Sy.initialize Pt.initialize principal.Yt.initialize
    principal.Oracle.is_fresh principal.Oracle.get_reference_value Manager.initialize
    principal.Sy.get_underlying Pt.underlying_address principal.Yt.underlying_address
    principal.Sy.permissioning_address Pt.permissioning_address principal.Yt.permissioning_address
    Pt.maturity principal.Yt.maturity principal.Yt.oracle_address Pt.set_minter
    principal.Yt.set_minter principal.Permissioning.grant_account Escrow.initialize
    Manager.underlying_address principal.Sy.set_recovery_escrow Pt.set_recovery_escrow
    principal.Yt.set_recovery_escrow principal.Permissioning.grant_asset
mismatched_manager_lem = refl
