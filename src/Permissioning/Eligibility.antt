-- ===== src/Permissioning/Eligibility.antt =====
-- Who may change the allow-lists, and what each change does to the answers of the two views.
use principal.Base.{
  Bool, ℕ, ◌≡◌, refl, true, false, ◌&&◌, ◌||◌, some, List, [], ◌∷◌, arith, All, contains, ◌==◌,
  if◌then◌else◌,
}
use principal.Host.{Env, ok, is_authorized}
use principal.Permissioning.{
  set_account, State, initialize, grant_account, revoke_account, grant_each, grant_accounts,
  is_allowed, grant_asset, revoke_asset, is_allowed_for_asset, transfer_admin, Call, apply, run,
}

pub apply-eq_self :
    (admin : ℕ) (env : Env) (call : Call) (s : State)
    → s.admin ≡ some admin
    → is_authorized env admin ≡ false
    → apply env call s ≡ s
unfolding apply initialize grant_account revoke_account grant_accounts grant_asset revoke_asset
    transfer_admin
apply-eq_self admin env (Call.initialize a) s h no_auth = ground arith
apply-eq_self admin env (Call.grant_account c a) s h no_auth = ground arith
apply-eq_self admin env (Call.revoke_account c a) s h no_auth = ground arith
apply-eq_self admin env (Call.grant_accounts c l) s h no_auth = ground arith
apply-eq_self admin env (Call.grant_asset c a b) s h no_auth = ground arith
apply-eq_self admin env (Call.revoke_asset c a b) s h no_auth = ground arith
apply-eq_self admin env (Call.transfer_admin c a) s h no_auth = ground arith

-- No history of calls that the admin of an initialized contract has not authorized changes
-- anything: neither an allow-list nor the admin.
pub run-eq_self :
    (admin : ℕ) (calls : List (Env × Call)) (s : State)
    → s.admin ≡ some admin
    → All (λ call. is_authorized call.0 admin ≡ false) calls
    → run calls s ≡ s
unfolding run
run-eq_self admin [] s h no_auth = refl
run-eq_self admin ((env, call) ∷ calls) s h no_auth =
    rw (apply-eq_self admin env call s h no_auth.0) (run-eq_self admin calls s h no_auth.1)

is_allowed-grant_each :
    (accounts : List ℕ) (a : ℕ) (s : State)
    → is_allowed a (grant_each accounts s) ≡ (contains accounts a || is_allowed a s)
unfolding is_allowed grant_each
is_allowed-grant_each [] a s = refl
is_allowed-grant_each (x ∷ xs) a s =
    ground (arith, is_allowed-grant_each xs a (set_account x true s))

asset_allowed-grant_each :
    (accounts : List ℕ) (a asset : ℕ) (s : State)
    → is_allowed_for_asset a asset (grant_each accounts s) ≡ is_allowed_for_asset a asset s
unfolding is_allowed_for_asset grant_each
asset_allowed-grant_each [] a asset s = refl
asset_allowed-grant_each (x ∷ xs) a asset s =
    asset_allowed-grant_each xs a asset (set_account x true s)

-- A batch that succeeds allows the accounts of its list and takes nobody's eligibility away; the
-- eligibility for an asset is left as it was.
pub is_allowed-grant_accounts :
    (env : Env) (caller : ℕ) (accounts : List ℕ) (s s' : State)
    → grant_accounts env caller accounts s ≡ ok (tt, s')
    → ((a : ℕ) → is_allowed a s' ≡ (contains accounts a || is_allowed a s))
      × ((a asset : ℕ) → is_allowed_for_asset a asset s' ≡ is_allowed_for_asset a asset s)
unfolding grant_accounts
is_allowed-grant_accounts env caller accounts s s' h = (
  λ a. ground (arith, is_allowed-grant_each accounts a s),
  λ a asset. ground (arith, asset_allowed-grant_each accounts a asset s),
)

-- A grant or a revocation for an asset that succeeds decides that pair of account and asset, and
-- leaves every other pair and the account-level list as they were.
pub is_allowed_for_asset-frame :
    (env : Env) (caller account asset : ℕ) (s s' : State) (granted : Bool)
    → (if granted
        then grant_asset env caller account asset s
        else revoke_asset env caller account asset s)
      ≡ ok (tt, s')
    → ((a b : ℕ)
        → is_allowed_for_asset a b s'
          ≡ (if account == a && asset == b then granted else is_allowed_for_asset a b s))
      × ((a : ℕ) → is_allowed a s' ≡ is_allowed a s)
unfolding grant_asset revoke_asset is_allowed_for_asset is_allowed
is_allowed_for_asset-frame env caller account asset s s' true h =
    (λ a b. ground arith, λ a. ground arith)
is_allowed_for_asset-frame env caller account asset s s' false h =
    (λ a b. ground arith, λ a. ground arith)
