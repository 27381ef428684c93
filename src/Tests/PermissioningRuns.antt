-- ===== src/Tests/PermissioningRuns.antt =====
-- Runs of Permissioning.
use principal.Base.{ℕ, not, ◌&&◌, ◌≡◌, refl, List, [], ◌∷◌, none, some, true, ◌==◌, if◌then◌else◌}
use principal.Host.{Env, ok, commit}
use principal.Permissioning.{
  State, empty, Call, run, grant_accounts, revoke_asset, is_allowed, is_allowed_for_asset,
  revoke_account,
}
use principal.Permissioning.Lapses.{
  Event, run_events, account_lapsed, asset_lapsed, run_events-fades,
}
use principal.Permissioning.Eligibility.{run-eq_self}
use principal.Tests.Fixtures.{signed_by}

abbrev calls : List (Env × Call)
calls =
    (signed_by 1 7, Call.initialize 1)
    ∷ (signed_by 1 7, Call.grant_account 1 5)
    ∷ (signed_by 1 7, Call.grant_asset 1 5 30)
    ∷ []

abbrev set_up : State
set_up = record {
  admin = some 1;
  account_allowed = λ a. if 5 == a then some true else none;
  asset_allowed = λ a b. if 5 == a then (if 30 == b then some true else none) else none;
}

granted : is_allowed 5 (run calls empty) ≡ true
unfolding run is_allowed principal.Permissioning.grant_asset principal.Permissioning.grant_account
    principal.Permissioning.initialize
granted = refl

-- Three attempts by others.
abbrev attempts : List (Env × Call)
attempts =
    (signed_by 2 7, Call.grant_account 2 2)
    ∷ (signed_by 3 7, Call.grant_accounts 1 (3 ∷ []))
    ∷ (signed_by 4 7, Call.transfer_admin 1 4)
    ∷ []

-- The same attempts, and the entry of account 5 lapses.
abbrev events : List Event
events =
    Event.called (signed_by 2 7) (Call.grant_account 2 2)
    ∷ Event.account_lapses 5
    ∷ Event.called (signed_by 4 7) (Call.transfer_admin 1 4)
    ∷ []

run_events-fades_example :
    ((run_events events set_up).admin ≡ some 1)
    × ((a : ℕ)
        → is_allowed a (run_events events set_up)
          ≡ (not (account_lapsed a events) && is_allowed a set_up))
    × ((a b : ℕ)
        → is_allowed_for_asset a b (run_events events set_up)
          ≡ (not (asset_lapsed a b events) && is_allowed_for_asset a b set_up))
run_events-fades_example = run_events-fades 1 events set_up refl (refl, (tt, (refl, tt)))

attempts_lem : run attempts set_up ≡ set_up
attempts_lem = run-eq_self 1 attempts set_up refl (refl, (refl, (refl, tt)))

abbrev after_batch : State
after_batch = commit set_up (grant_accounts (signed_by 1 7) 1 (6 ∷ 8 ∷ []) set_up)

batch_runs : grant_accounts (signed_by 1 7) 1 (6 ∷ 8 ∷ []) set_up ≡ ok (tt, after_batch)
unfolding grant_accounts
batch_runs = refl

abbrev after_revoke : State
after_revoke = commit set_up (revoke_asset (signed_by 1 7) 1 5 30 set_up)

revoke_runs : revoke_asset (signed_by 1 7) 1 5 30 set_up ≡ ok (tt, after_revoke)
unfolding revoke_asset
revoke_runs = refl
