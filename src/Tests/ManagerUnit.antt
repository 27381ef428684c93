-- ===== src/Tests/ManagerUnit.antt =====
-- The fixture of the unit tests of PrincipalManager (contracts/principal_manager/src/lib.rs): every
-- contract of a market, wired.
mod Minting
mod Redeeming
mod Wiring
use principal.Base.{if◌then◌else◌, ℕ, Bool, true, Option, none, some, ◌==◌, ◌+◌, ◌*◌}
use principal.Base.Int.{ℤ, pos}
use principal.Host.{M, Views, Env, ok, ◌>>=◌, ◌>>◌, pure}
use principal.World.{World, call_sy, call_pt, call_yt}
use principal.Sy
use principal.Pt
use principal.Yt
use principal.Manager
use principal.Token.Simple.{simple}
use principal.Tests.Unit.{eq_ℤ}
use principal.Tests.Chain
use principal.Tests.Chain.{
  Chain, admin, underlying, perm_id, oracle_id, contract_id, call, call_at, ask, set_authorized,
  at_time,
}

abbrev pub Test : Type 0 → Type 0
Test A = M (Chain (Manager.Joint simple)) A

abbrev pub sy_id : ℕ
sy_id = 11

abbrev pub pt_id : ℕ
pt_id = 12

abbrev pub yt_id : ℕ
yt_id = 13

abbrev pub oracle_admin : ℕ
oracle_admin = 3

abbrev pub t0 : ℕ
t0 = 1000

abbrev pub max_u64 : ℕ
max_u64 = 18446744073709551615

-- The contracts are registered and not initialized.
abbrev pub empty : Chain (Manager.Joint simple)
empty = Chain.deployed (
  Manager.empty,
  record {
    sys = λ a. if a == sy_id then some Sy.empty else none;
    pts = λ a. if a == pt_id then some Pt.empty else none;
    yts = λ a. if a == yt_id then some Yt.empty else none;
    ledger = λ asset a. 0;
  },
)

-- Calls of the wrapper and of the tokens that do not come from the manager.
abbrev pub on_sy : {A : Type 0} → (Views → Env → M (Sy.Joint simple) A) → Test A
on_sy f = call_at sy_id (λ v env. Manager.call simple (call_sy simple sy_id (f v env)))

abbrev pub on_pt : {A : Type 0} → (Views → Env → M Pt.State A) → Test A
on_pt f = call_at pt_id (λ v env. Manager.call simple (call_pt simple pt_id (f v env)))

abbrev pub on_yt : {A : Type 0} → (Views → Env → M Yt.State A) → Test A
on_yt f = call_at yt_id (λ v env. Manager.call simple (call_yt simple yt_id (f v env)))

abbrev pub initialize_sy : Test Unit
initialize_sy =
    on_sy (λ v env. Manager.sy_only simple (Sy.initialize v env admin underlying perm_id))

abbrev pub initialize_pt : ℕ → ℕ → Test Unit
initialize_pt asset maturity =
    on_pt
      (λ v env. Pt.initialize v env admin perm_id asset maturity "Principal Token USDY" "PT-USDY" 7)

abbrev pub initialize_yt : ℕ → ℕ → ℕ → Test Unit
initialize_yt permissioning oracle maturity = on_yt (λ v env.
    Yt.initialize v env admin permissioning underlying oracle maturity "Yield Token USDY" "YT-USDY"
      7)

abbrev pub initialize : ℕ → ℕ → Test Unit
initialize account maturity = call (λ v env.
    Manager.initialize simple v env account sy_id pt_id yt_id oracle_id perm_id underlying maturity)

abbrev pub publish : ℕ → ℕ → Test Unit
publish n time = Chain.publish_at oracle_id oracle_admin n time

-- Clock, oracle, registry and asset, with their administrators.
abbrev pub surroundings : ℕ → ℕ → Test Unit
surroundings oracle_owner registry_owner = do
  at_time t0
  Chain.deploy_oracle oracle_id oracle_owner
  Chain.publish_at oracle_id oracle_owner 10000000 t0
  Chain.deploy_registry perm_id registry_owner
  Chain.deploy_asset underlying admin

abbrev pub topology_base : Test Unit
topology_base = surroundings admin admin

-- A market with the administrator of its oracle and its maturity.
abbrev pub market : ℕ → ℕ → Test Unit
market oracle_owner maturity = do
  surroundings oracle_owner Chain.perm_admin
  initialize_sy
  initialize_pt underlying maturity
  initialize_yt perm_id oracle_id maturity
  initialize admin maturity
  on_pt (λ v env. Pt.set_minter env admin contract_id)
  on_yt (λ v env. Yt.set_minter env admin contract_id)
  Chain.grant_account contract_id
  set_authorized contract_id true

abbrev pub setup : ℕ → Test Unit
setup maturity = market oracle_admin maturity

abbrev pub grant_user : ℕ → Test Unit
grant_user user = do
  Chain.grant_account user
  Chain.grant_asset pt_id user
  Chain.grant_asset yt_id user
  set_authorized user true

-- An amount of whole tokens.
abbrev pub units : ℕ → ℕ
units n = n * 10000000

-- The asset contract issues units to an account.
abbrev pub mint_units : ℕ → ℕ → Test Unit
mint_units user n chain =
    let world = chain.contract.1 in
    ok (
      tt,
      record chain {
        contract = (
          chain.contract.0,
          record world {
            ledger = λ asset a.
                world.ledger asset a
                + (if asset == underlying then (if user == a then n else 0) else 0);
          },
        );
      },
    )

abbrev pub deposit_sy : ℕ → ℕ → Test ℤ
deposit_sy user n = do mint_units user n; on_sy (λ v env. Sy.deposit simple v env user (pos n))

abbrev pub mint : ℕ → ℤ → Test Manager.MintResult
mint user shares = call (λ v env. Manager.mint simple v env user shares)

abbrev pub redeem : ℕ → ℤ → ℤ → Test Manager.RedeemResult
redeem user pt yt = call (λ v env. Manager.redeem simple v env user pt yt)

abbrev pub claim_yield : ℕ → Test ℤ
claim_yield user = call (λ v env. Manager.claim_yield simple v env user)

-- An account has deposited whole tokens and minted with its shares.
abbrev pub minted : ℕ → ℕ → Test Manager.MintResult
minted user n = do grant_user user; shares ← deposit_sy user (units n); mint user shares

-- What the views answer.
abbrev pub answers : M (Manager.Joint simple) ℤ → ℤ → Test Bool
answers get value = do found ← ask get; pure (eq_ℤ found value)

abbrev pub shares_are : ℕ → ℤ → Test Bool
shares_are account value = on_sy (λ v env j. ok (eq_ℤ (Sy.balance_of account j.0) value, j))

abbrev pub paid_is : ℕ → ℤ → Test Bool
paid_is account value chain =
    ok (eq_ℤ (pos (chain.contract.1.ledger underlying account)) value, chain)
