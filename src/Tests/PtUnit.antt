-- ===== src/Tests/PtUnit.antt =====
-- The fixture of the unit tests of PTToken (contracts/pt_token/src/lib.rs).
mod Issuing
mod Transfers
mod Seizures
use principal.Base.{ℕ, Bool, true, ◌==◌}
use principal.Base.Int.{ℤ, pos}
use principal.Host.{M, ◌>>=◌, ◌>>◌, pure}
use principal.Pt
use principal.Tests.Unit.{eq_ℤ}
use principal.Tests.Chain
use principal.Tests.Chain.{
  contract_id, Chain, admin, underlying, perm_id, call, ask, view, set_authorized,
}

abbrev pub Test : Type 0 → Type 0
Test A = M (Chain Pt.State) A

abbrev pub empty : Chain Pt.State
empty = Chain.deployed Pt.empty

abbrev pub max_u64 : ℕ
max_u64 = 18446744073709551615

abbrev pub initialize : ℕ → Test Unit
initialize account = call (λ v env.
    Pt.initialize v env account perm_id underlying max_u64 "Principal Token USDY" "PT-USDY" 7)

abbrev pub setup : Test Unit
setup = do Chain.registered; initialize admin

-- Both layers clear the account for this token.
abbrev pub grant : ℕ → Test Unit
grant user = do
  Chain.grant_account user
  Chain.grant_asset contract_id user
  set_authorized user true

abbrev pub set_minter : ℕ → ℕ → Test Unit
set_minter caller account = call (λ v env. Pt.set_minter env caller account)

abbrev pub set_recovery_escrow : ℕ → Test Unit
set_recovery_escrow escrow = call (λ v env. Pt.set_recovery_escrow env admin escrow)

abbrev pub mint : ℕ → ℕ → Test Unit
mint to n = call (λ v env. Pt.mint v env to (pos n))

abbrev pub burn : ℕ → ℕ → Test Unit
burn from n = call (λ v env. Pt.burn env from (pos n))

abbrev pub transfer : ℕ → ℕ → ℕ → Test Unit
transfer from to n = call (λ v env. Pt.transfer v env from to (pos n))

abbrev pub approve : ℕ → ℕ → ℤ → ℕ → Test Unit
approve from spender amount expiration =
    call (λ v env. Pt.approve env from spender amount expiration)

abbrev pub transfer_from : ℕ → ℕ → ℕ → ℕ → Test Unit
transfer_from spender from to n = call (λ v env. Pt.transfer_from v env spender from to (pos n))

abbrev pub seize : ℕ → ℕ → ℕ → Test ℤ
seize caller account n = call (λ v env. Pt.seize env caller account (pos n))

-- What the views answer.
abbrev pub balance_is : ℕ → ℕ → Test Bool
balance_is account n = view (λ s. eq_ℤ (Pt.balance account s) (pos n))

abbrev pub supply_is : ℕ → Test Bool
supply_is n = view (λ s. eq_ℤ (Pt.total_supply s) (pos n))

abbrev pub number_is : M Pt.State ℕ → ℕ → Test Bool
number_is get value = do found ← ask get; pure (found == value)
