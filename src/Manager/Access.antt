-- ===== src/Manager/Access.antt =====
-- What the entry points of PrincipalManager ask before they do anything.
use principal.Base.{ℕ, ◌≡◌, true, false, some, unwrap_or}
use principal.Host.{Env, Views, ok, is_authorized}
use principal.Manager.Store.{State, max_oracle_staleness_secs}

-- What every operation of the manager asks first: the account's signature, a manager that is not
-- paused, a fresh oracle, and an account that both compliance layers let pass.
pub record IsOpen (views : Views) (env : Env) (from : ℕ) (s : State) : Type 0 where
  pub oracle : ℕ
  pub registry : ℕ
  pub asset : ℕ
  pub signed : is_authorized env from ≡ true
  pub running : unwrap_or s.paused false ≡ false
  pub has_oracle : s.oracle ≡ some oracle
  pub fresh : views.is_fresh oracle max_oracle_staleness_secs ≡ ok true
  pub has_underlying : s.underlying ≡ some asset
  pub on_sac : views.sac_authorized asset from ≡ ok true
  pub has_permissioning : s.permissioning ≡ some registry
  pub permitted : views.is_allowed registry from ≡ ok true
