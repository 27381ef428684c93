-- ===== src/Tests/EscrowUnit.antt =====
-- The fixture of the unit tests of RecoveryEscrow (contracts/recovery_escrow/src/lib.rs): a market
-- and the escrow that its contracts name.
mod Positions
mod Finalizing
use principal.Base.{ℕ, Bool, true, Option, none, some, ◌==◌, put, if◌then◌else◌}
use principal.Base.Int.{ℤ, pos}
use principal.Host.{M, Views, Env, ok, and_then, ◌>>=◌, ◌>>◌, pure}
use principal.World.{found}
use principal.Sy
use principal.Pt
use principal.Yt
use principal.Manager
use principal.Escrow
use principal.Token.Simple.{simple}
use principal.Tests.Unit.{eq_ℤ}
use principal.Tests.Chain
use principal.Tests.Chain.{Chain, admin, underlying, contract_id, call_at, set_authorized}
use principal.Tests.ManagerUnit
use principal.Tests.ManagerUnit.{sy_id, pt_id, yt_id, max_u64, on_sy, on_pt, on_yt}

abbrev pub Test : Type 0 → Type 0
Test A = M (Chain (Escrow.Joint simple)) A

abbrev pub escrow_id : ℕ
escrow_id = 14

abbrev pub with_contract : {C D : Type 0} → D → Chain C → Chain D
with_contract d chain = record {
  contract = d;
  registries = chain.registries;
  oracles = chain.oracles;
  asset_admin = chain.asset_admin;
  timestamp = chain.timestamp;
  sequence = chain.sequence;
  authorized = chain.authorized;
}

abbrev pub empty : Chain (Escrow.Joint simple)
empty =
    let market = ManagerUnit.empty.contract in
    Chain.deployed (Escrow.empty, (λ a. if a == contract_id then some market.0 else none, market.1))

-- What happens in the market, its manager included.
abbrev pub in_market : {A : Type 0} → ManagerUnit.Test A → Test A
in_market f chain =
    let around = chain.contract.1 in
    and_then (found (around.0 contract_id)) (λ m.
      and_then (f (with_contract (m, around.1) chain)) (λ r.
        let market = r.1.contract in
        ok (
          r.0,
          with_contract (chain.contract.0, (put around.0 contract_id market.0, market.1)) r.1,
        )))

-- A call of the escrow.
abbrev pub call : {A : Type 0} → (Views → Env → M (Escrow.Joint simple) A) → Test A
call = call_at escrow_id

abbrev pub initialize : ℕ → ℕ → Test Unit
initialize pt_token manager =
    call (λ v env. Escrow.initialize simple underlying sy_id pt_token yt_id manager)

abbrev pub setup_with_maturity : ℕ → Test Unit
setup_with_maturity maturity = do
  in_market (ManagerUnit.market admin maturity)
  initialize pt_id contract_id
  in_market (on_sy (λ v env. Manager.sy_only simple (Sy.set_recovery_escrow env admin escrow_id)))
  in_market (on_pt (λ v env. Pt.set_recovery_escrow env admin escrow_id))
  in_market (on_yt (λ v env. Yt.set_recovery_escrow env admin escrow_id))
  Chain.grant_account escrow_id
  Chain.grant_asset pt_id escrow_id
  Chain.grant_asset yt_id escrow_id
  set_authorized escrow_id true

abbrev pub setup : Test Unit
setup = setup_with_maturity max_u64

abbrev pub grant_sy : ℕ → Test Unit
grant_sy user = do Chain.grant_account user; set_authorized user true

abbrev pub mint_underlying : ℕ → ℕ → Test Unit
mint_underlying user n = in_market (ManagerUnit.mint_units user n)

abbrev pub grant_and_fund : ℕ → ℕ → Test Unit
grant_and_fund user n = do
  grant_sy user
  Chain.grant_asset pt_id user
  Chain.grant_asset yt_id user
  mint_underlying user n

abbrev pub deposit : ℕ → ℕ → Test ℤ
deposit user n = in_market (on_sy (λ v env. Sy.deposit simple v env user (pos n)))

-- An account is cleared and funded, deposits, and mints with its shares.
abbrev pub minted : ℕ → ℕ → Test Manager.MintResult
minted user n = do
  grant_and_fund user n
  shares ← deposit user n
  in_market (ManagerUnit.mint user shares)

abbrev pub seize_sy : ℕ → ℕ → ℕ → Test ℤ
seize_sy caller account n = call (λ v env. Escrow.seize_sy simple v env caller account (pos n))

abbrev pub seize_pt : ℕ → ℕ → ℤ → Test ℤ
seize_pt caller account amount = call (λ v env. Escrow.seize_pt simple v env caller account amount)

abbrev pub seize_yt : ℕ → ℕ → ℤ → Test ℤ
seize_yt caller account amount = call (λ v env. Escrow.seize_yt simple v env caller account amount)

abbrev pub finalize_pt : ℕ → ℤ → Test ℤ
finalize_pt caller amount = call (λ v env. Escrow.finalize_pt simple v env caller amount)

abbrev pub finalize_yt : ℕ → ℤ → Test ℤ
finalize_yt caller amount = call (λ v env. Escrow.finalize_yt simple v env caller amount)

-- What the views answer.
abbrev pub paid_is : ℕ → ℤ → Test Bool
paid_is account value = in_market (ManagerUnit.paid_is account value)

abbrev pub pt_is : ℕ → ℤ → Test Bool
pt_is account value = in_market (on_pt (λ v env s. ok (eq_ℤ (Pt.balance account s) value, s)))

abbrev pub yt_is : ℕ → ℤ → Test Bool
yt_is account value = in_market (on_yt (λ v env s. ok (eq_ℤ (Yt.balance account s) value, s)))
