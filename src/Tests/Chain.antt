-- ===== src/Tests/Chain.antt =====
-- The fixture of the unit tests of the contracts (`setup` and `grant` of the `mod test` of
-- contracts/{sy_wrapper,pt_token,yt_token,principal_manager}/src/lib.rs): the contract under test,
-- with those that it writes to; the registries, oracles and assets that it asks, by their
-- addresses; the accounts that the assets have deauthorized; and the ledger's clock.
use principal.World.{found}
use principal.Base.{Option, none, put, ℕ, Bool, true, ◌==◌, if◌then◌else◌}
use principal.Base.Int.{pos}
use principal.Host.{◌>>◌, Views, Env, M, ok, and_then}
use principal.Oracle
use principal.Permissioning
use principal.Tests.Unit.{mocked}

pub record Chain (C : Type 0) : Type 0 where
  pub contract : C
  pub registries : ℕ → Option Permissioning.State
  pub oracles : ℕ → Option Oracle.State
  pub asset_admin : ℕ → Option ℕ
  pub timestamp : ℕ
  pub sequence : ℕ
  pub authorized : ℕ → Bool

-- The administrator of the market, the one of Permissioning, and the addresses of the contracts.
abbrev pub admin : ℕ
admin = 1

abbrev pub perm_admin : ℕ
perm_admin = 2

abbrev pub contract_id : ℕ
contract_id = 10

abbrev pub underlying : ℕ
underlying = 20

abbrev pub perm_id : ℕ
perm_id = 30

abbrev pub oracle_id : ℕ
oracle_id = 40

-- The environment of a call of the contract at an address.
abbrev pub env_of : {C : Type 0} → ℕ → Chain C → Env
env_of current chain = record (mocked chain.timestamp) {
  sequence = chain.sequence;
  current = current;
}

-- Nothing is deployed but the contract under test, and no account is deauthorized.
abbrev pub deployed : {C : Type 0} → C → Chain C
deployed c = record {
  contract = c;
  registries = λ a. none;
  oracles = λ a. none;
  asset_admin = λ a. none;
  timestamp = 0;
  sequence = 0;
  authorized = λ a. true;
}

-- What the other contracts answer.
abbrev pub views : {C : Type 0} → Chain C → Views
views chain = record {
  is_allowed =
      λ r a. and_then (found (chain.registries r)) (λ s. ok (Permissioning.is_allowed a s));
  is_allowed_for_asset = λ r a asset.
      and_then (found (chain.registries r))
        (λ s. ok (Permissioning.is_allowed_for_asset a asset s));
  sac_authorized =
      λ asset a. and_then (found (chain.asset_admin asset)) (λ owner. ok (chain.authorized a));
  sac_admin = λ asset. found (chain.asset_admin asset);
  get_reference_value = λ o.
      and_then (found (chain.oracles o))
        (λ s. and_then (Oracle.get_reference_value s) (λ r. ok r.0));
  is_fresh = λ o seconds.
      and_then (found (chain.oracles o))
        (λ s. ok (Oracle.is_fresh (mocked chain.timestamp) seconds s));
}

-- A call of the contract at an address.
abbrev pub call_at : {C A : Type 0} → ℕ → (Views → Env → M C A) → M (Chain C) A
call_at current f chain =
    and_then (f (views chain) (env_of current chain) chain.contract)
      (λ r. ok (r.0, record chain { contract = r.1 }))

abbrev pub call : {C A : Type 0} → (Views → Env → M C A) → M (Chain C) A
call = call_at contract_id

-- A call of the contract under test that asks no other contract.
abbrev pub ask : {C A : Type 0} → M C A → M (Chain C) A
ask f = call (λ other env. f)

-- A view of the contract under test.
abbrev pub view : {C A : Type 0} → (C → A) → M (Chain C) A
view f chain = ok (f chain.contract, chain)

abbrev pub call_registry : {C : Type 0} → ℕ → M Permissioning.State Unit → M (Chain C) Unit
call_registry a f chain = and_then (found (chain.registries a)) (λ s.
    and_then (f s) (λ r. ok (r.0, record chain { registries = put chain.registries a (r.1) })))

abbrev pub call_oracle : {C : Type 0} → ℕ → M Oracle.State Unit → M (Chain C) Unit
call_oracle a f chain =
    and_then (found (chain.oracles a))
      (λ s. and_then (f s) (λ r. ok (r.0, record chain { oracles = put chain.oracles a (r.1) })))

-- An asset contract with its administrator, a Permissioning and an OracleAdapter with theirs.
abbrev pub deploy_asset : {C : Type 0} → ℕ → ℕ → M (Chain C) Unit
deploy_asset a owner chain = ok (tt, record chain { asset_admin = put chain.asset_admin a owner })

abbrev pub deploy_registry : {C : Type 0} → ℕ → ℕ → M (Chain C) Unit
deploy_registry a owner chain =
    call_registry a (Permissioning.initialize owner)
      (record chain { registries = put chain.registries a Permissioning.empty })

abbrev pub deploy_oracle : {C : Type 0} → ℕ → ℕ → M (Chain C) Unit
deploy_oracle a owner chain =
    call_oracle a (Oracle.initialize owner)
      (record chain { oracles = put chain.oracles a Oracle.empty })

-- The reference value that an oracle's administrator publishes for a time.
abbrev pub publish_at : {C : Type 0} → ℕ → ℕ → ℕ → ℕ → M (Chain C) Unit
publish_at a owner n time = call_oracle a (Oracle.set_reference_value (mocked 0) owner (pos n) time)

-- `env.ledger().with_mut(..)`
abbrev pub at_time : {C : Type 0} → ℕ → M (Chain C) Unit
at_time t chain = ok (tt, record chain { timestamp = t })

abbrev pub at_sequence : {C : Type 0} → ℕ → M (Chain C) Unit
at_sequence n chain = ok (tt, record chain { sequence = n })

abbrev pub set_authorized : {C : Type 0} → ℕ → Bool → M (Chain C) Unit
set_authorized user allowed chain =
    ok (tt, record chain { authorized = λ a. if user == a then allowed else chain.authorized a })

-- The contracts that every fixture deploys first.
abbrev pub registered : {C : Type 0} → M (Chain C) Unit
registered = do deploy_registry perm_id perm_admin; deploy_asset underlying admin

abbrev pub grant_account : {C : Type 0} → ℕ → M (Chain C) Unit
grant_account user = call_registry perm_id (Permissioning.grant_account (mocked 0) perm_admin user)

abbrev pub revoke_account : {C : Type 0} → ℕ → M (Chain C) Unit
revoke_account user =
    call_registry perm_id (Permissioning.revoke_account (mocked 0) perm_admin user)

abbrev pub grant_asset : {C : Type 0} → ℕ → ℕ → M (Chain C) Unit
grant_asset asset user =
    call_registry perm_id (Permissioning.grant_asset (mocked 0) perm_admin user asset)
