-- ===== src/Tests/SyUnit.antt =====
-- The fixture of the unit tests of SYWrapper (contracts/sy_wrapper/src/lib.rs).
mod Deposits
mod Withdrawals
mod Seizures
use principal.Base.{if◌then◌else◌, ◌+◌, ℕ, Bool, true, ◌==◌}
use principal.Base.Int.{ℤ, pos}
use principal.Host.{and_then, Env, ok, Views, M, ◌>>=◌, ◌>>◌, pure, gets, lift}
use principal.Sy
use principal.Token.Simple.{simple}
use principal.Tests.Unit.{eq_ℤ}
use principal.Tests.Chain
use principal.Tests.Chain.{Chain, admin, underlying, perm_id, call, ask, view, set_authorized}

abbrev pub Test : Type 0 → Type 0
Test A = M (Chain (Sy.Joint simple)) A

-- A call of the wrapper that does not reach the asset contract, and a view of its storage.
abbrev pub on_wrapper : {A : Type 0} → (Views → Env → M Sy.State A) → Test A
on_wrapper f = call (λ v env j. and_then (f v env j.0) (λ r. ok (r.0, (r.1, j.1))))

abbrev pub view_wrapper : {A : Type 0} → (Sy.State → A) → Test A
view_wrapper f = view (λ j. f j.0)

abbrev pub empty : Chain (Sy.Joint simple)
empty = Chain.deployed (Sy.empty, λ asset a. 0)

abbrev pub initialize : ℕ → Test Unit
initialize account = on_wrapper (λ v env. Sy.initialize v env account underlying perm_id)

abbrev pub setup : Test Unit
setup = do Chain.registered; initialize admin

-- Both layers clear the account.
abbrev pub grant : ℕ → Test Unit
grant user = do Chain.grant_account user; set_authorized user true

abbrev pub mint : ℕ → ℕ → Test Unit
mint user n chain =
    let units = chain.contract.1 in
    ok (
      tt,
      record chain {
        contract = (
          chain.contract.0,
          λ asset a.
              units asset a + (if asset == underlying then (if user == a then n else 0) else 0),
        );
      },
    )

abbrev pub deposit : ℕ → ℕ → Test ℤ
deposit user n = call (λ v env. Sy.deposit simple v env user (pos n))

abbrev pub withdraw : ℕ → ℤ → ℕ → Test ℤ
withdraw user shares to = call (λ v env. Sy.withdraw simple v env user shares to)

abbrev pub transfer : ℕ → ℕ → ℤ → Test ℤ
transfer from to amount = on_wrapper (λ v env. Sy.transfer v env from to amount)

abbrev pub seize : ℕ → ℕ → ℕ → Test ℤ
seize caller account n = on_wrapper (λ v env. Sy.seize env caller account (pos n))

abbrev pub set_paused : ℕ → Bool → Test Unit
set_paused caller paused = on_wrapper (λ v env. Sy.set_paused env caller paused)

abbrev pub set_recovery_escrow : ℕ → Test Unit
set_recovery_escrow escrow = on_wrapper (λ v env. Sy.set_recovery_escrow env admin escrow)

-- What the views answer.
abbrev pub rate_is : ℤ → Test Bool
rate_is value = do
  computed ← view_wrapper Sy.exchange_rate
  rate ← lift computed
  pure (eq_ℤ rate value)

abbrev pub balance_is : ℕ → ℤ → Test Bool
balance_is account value = view_wrapper (λ s. eq_ℤ (Sy.balance_of account s) value)

abbrev pub shares_are : ℤ → Test Bool
shares_are value = view_wrapper (λ s. eq_ℤ (Sy.total_shares s) value)

abbrev pub underlying_is : ℤ → Test Bool
underlying_is value = view_wrapper (λ s. eq_ℤ (Sy.total_underlying s) value)

abbrev pub address_is : M Sy.State ℕ → ℕ → Test Bool
address_is get value = do found ← on_wrapper (λ v env. get); pure (found == value)
