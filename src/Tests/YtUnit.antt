-- ===== src/Tests/YtUnit.antt =====
-- The fixture of the unit tests of YTToken (contracts/yt_token/src/lib.rs).
mod Issuing
mod Yields
mod Transfers
mod Seizures
use principal.Base.{◌+◌, ◌*◌, ℕ, Bool, true, ◌==◌}
use principal.Base.Int.{ℤ, pos}
use principal.Host.{M, ◌>>=◌, ◌>>◌, pure}
use principal.Yt
use principal.Oracle
use principal.Tests.Unit.{mocked, eq_ℤ}
use principal.Tests.Chain
use principal.Tests.Chain.{
  contract_id, oracle_id, at_time, Chain, admin, underlying, perm_id, call, ask, view,
  set_authorized,
}

abbrev pub Test : Type 0 → Type 0
Test A = M (Chain Yt.State) A

abbrev pub empty : Chain Yt.State
empty = Chain.deployed Yt.empty

abbrev pub oracle_admin : ℕ
oracle_admin = 3

abbrev pub update_yield_index : Test Unit
update_yield_index = call (λ v env. Yt.update_yield_index v)

abbrev pub claim_yield : ℕ → ℕ → Test ℤ
claim_yield caller from = call (λ v env. Yt.claim_yield env caller from)

abbrev pub max_u64 : ℕ
max_u64 = 18446744073709551615

abbrev pub initialize : ℕ → Test Unit
initialize account = call (λ v env.
    Yt.initialize v env account perm_id underlying oracle_id max_u64 "Yield Token USDY" "YT-USDY" 7)

abbrev pub t0 : ℕ
t0 = 1000

-- The reference value that the oracle's administrator publishes for a time.
abbrev pub publish : ℕ → ℕ → Test Unit
publish n time = Chain.publish_at oracle_id oracle_admin n time

abbrev pub deployed_at : ℕ → Test Unit
deployed_at rate = do
  at_time t0
  Chain.registered
  Chain.deploy_oracle oracle_id oracle_admin
  publish rate t0
  initialize admin

abbrev pub setup : Test Unit
setup = deployed_at 10000000

-- The oracle publishes a rate a second later and the index follows.
abbrev pub rate_rises : ℕ → Test Unit
rate_rises rate = do publish rate (t0 + 1); at_time (t0 + 1); update_yield_index

-- Both layers clear the account for this token.
abbrev pub grant : ℕ → Test Unit
grant user = do
  Chain.grant_account user
  Chain.grant_asset contract_id user
  set_authorized user true

abbrev pub set_minter : ℕ → ℕ → Test Unit
set_minter caller account = call (λ v env. Yt.set_minter env caller account)

abbrev pub set_recovery_escrow : ℕ → Test Unit
set_recovery_escrow escrow = call (λ v env. Yt.set_recovery_escrow env admin escrow)

abbrev pub mint : ℕ → ℕ → Test Unit
mint to n = call (λ v env. Yt.mint v env to (pos n))

abbrev pub burn : ℕ → ℕ → Test Unit
burn from n = call (λ v env. Yt.burn env from (pos n))

abbrev pub transfer : ℕ → ℕ → ℕ → Test Unit
transfer from to n = call (λ v env. Yt.transfer v env from to (pos n))

abbrev pub approve : ℕ → ℕ → ℤ → ℕ → Test Unit
approve from spender amount expiration =
    call (λ v env. Yt.approve env from spender amount expiration)

abbrev pub transfer_from : ℕ → ℕ → ℕ → ℕ → Test Unit
transfer_from spender from to n = call (λ v env. Yt.transfer_from v env spender from to (pos n))

abbrev pub seize : ℕ → ℕ → ℕ → Test ℤ
seize caller account n = call (λ v env. Yt.seize env caller account (pos n))

-- What the views answer.
abbrev pub balance_is : ℕ → ℕ → Test Bool
balance_is account n = view (λ s. eq_ℤ (Yt.balance account s) (pos n))

abbrev pub supply_is : ℕ → Test Bool
supply_is n = view (λ s. eq_ℤ (Yt.total_supply s) (pos n))

abbrev pub number_is : M Yt.State ℕ → ℕ → Test Bool
number_is get value = do found ← ask get; pure (found == value)

abbrev pub pending_is : ℕ → ℕ → Test Bool
pending_is account n = view (λ s. eq_ℤ (Yt.pending_claim account s) (pos n))

abbrev pub index_is : ℕ → Test Bool
index_is n = view (λ s. eq_ℤ (Yt.accrued_yield_index s) (pos n))

-- An amount of whole tokens.
abbrev pub units : ℕ → ℕ
units n = n * 10000000
