-- ===== src/RiskControl/Pause.antt =====
-- The pause and the roles: what a history of calls can do that the admin has not authorized.
use principal.Base.{◌∙◌, ℕ, ◌≡◌, true, false, some, List, [], ◌∷◌, arith, All}
use principal.Host.{Env, is_authorized}
use principal.RiskControl.{
  State, initialize, pause, unpause, add_pauser, remove_pauser, add_consumer, remove_consumer,
  check_deposit, set_cb_limit, transfer_admin, Call, apply, run,
}

-- A paused contract with this admin, this limit and these roles.
pub record StaysPaused (admin : ℕ) (s s' : State) : Type 0 where
  pub same_admin : s'.admin ≡ some admin
  pub is_paused : s'.paused ≡ some true
  pub same_limit : s'.cb_limit ≡ s.cb_limit
  pub same_pausers : s'.pauser ≡ s.pauser
  pub same_consumers : s'.consumer ≡ s.consumer
  pub same_volume : s'.cb_volume ≡ s.cb_volume
  pub same_start : s'.cb_window_start ≡ s.cb_window_start

module _ (admin : ℕ) (env : Env) where
  apply-StaysPaused :
      (call : Call) (s : State)
      → s.admin ≡ some admin
      → s.paused ≡ some true
      → is_authorized env admin ≡ false
      → StaysPaused admin s (apply env call s)
  unfolding apply initialize pause unpause add_pauser remove_pauser add_consumer remove_consumer
      check_deposit set_cb_limit transfer_admin
  apply-StaysPaused (Call.initialize a l) s h p no_auth = ground arith
  apply-StaysPaused (Call.pause c) s h p no_auth = ground arith
  apply-StaysPaused (Call.unpause c) s h p no_auth = ground arith
  apply-StaysPaused (Call.add_pauser c a) s h p no_auth = ground arith
  apply-StaysPaused (Call.remove_pauser c a) s h p no_auth = ground arith
  apply-StaysPaused (Call.add_consumer c a) s h p no_auth = ground arith
  apply-StaysPaused (Call.remove_consumer c a) s h p no_auth = ground arith
  apply-StaysPaused (Call.check_deposit c x) s h p no_auth = ground arith
  apply-StaysPaused (Call.set_cb_limit c x) s h p no_auth = ground arith
  apply-StaysPaused (Call.transfer_admin c a) s h p no_auth = ground arith

-- Once paused, the contract stays paused through any history of calls that its admin has not
-- authorized, whoever the pausers are; the roles, the limit and the counted volume stay too.
pub run-StaysPaused :
    (admin : ℕ) (calls : List (Env × Call)) (s : State)
    → s.admin ≡ some admin
    → s.paused ≡ some true
    → All (λ call. is_authorized call.0 admin ≡ false) calls
    → StaysPaused admin s (run calls s)
unfolding run
run-StaysPaused admin [] s h p no_auth = ground arith
run-StaysPaused admin ((env, call) ∷ calls) s h p no_auth =
    let one = apply-StaysPaused admin env call s h p no_auth.0 in
    let rest =
      run-StaysPaused admin calls (apply env call s) one.same_admin one.is_paused no_auth.1 in
    record {
      same_admin = rest.same_admin;
      is_paused = rest.is_paused;
      same_limit = rest.same_limit ∙ one.same_limit;
      same_pausers = rest.same_pausers ∙ one.same_pausers;
      same_consumers = rest.same_consumers ∙ one.same_consumers;
      same_volume = rest.same_volume ∙ one.same_volume;
      same_start = rest.same_start ∙ one.same_start;
    }
