-- ===== src/Tests/RiskRuns.antt =====
-- Runs of RiskControl.
use principal.Base.{
  ◌≡◌, ◌↔◌, refl, arith, List, [], ◌∷◌, none, some, true, false, ◌==◌, if◌then◌else◌,
}
use principal.Base.Int.{pos, ◌≤ℤ◌, ◌+ℤ◌}
use principal.Host.{Env, ok, err, in_i128}
use principal.RiskControl.{State, Call, run, check_deposit, get_cb_volume}
use principal.RiskControl.Pause.{StaysPaused, run-StaysPaused}
use principal.RiskControl.Breaker.{
  Deposit, deposits, IsEligible, check_deposit_iff, deposits-le-limit,
}
use principal.RiskControl.Boundary.{deposits_twice_limit}
use principal.Tests.Fixtures.{at_time, signed_by}

-- A limit of 1000 from time 1000 on; 5 is a pauser and 6 a consumer.
abbrev set_up : State
set_up = record {
  admin = some 1;
  paused = some false;
  pauser = λ a. if 5 == a then some true else none;
  consumer = λ a. if 6 == a then some true else none;
  cb_limit = some (pos 1000);
  cb_volume = some (pos 0);
  cb_window_start = some 1000;
}

abbrev paused : State
paused = record set_up { paused = some true }

abbrev attempts : List (Env × Call)
attempts =
    (signed_by 5 7, Call.unpause 5)
    ∷ (signed_by 6 7, Call.check_deposit 6 (pos 3))
    ∷ (signed_by 5 7, Call.pause 5)
    ∷ []

run-StaysPaused_example : StaysPaused 1 paused (run attempts paused)
run-StaysPaused_example = run-StaysPaused 1 attempts paused refl refl (refl, (refl, (refl, tt)))

abbrev three : List Deposit
three =
    (signed_by 6 7, 6, pos 600)
    ∷ (at_time 2000 51 6 7, 6, pos 500)
    ∷ (at_time 3000 52 6 7, 6, pos 400)
    ∷ []

three_run : (deposits three set_up).0 ≡ pos 1000
unfolding deposits check_deposit ◌+ℤ◌ principal.Host.checked in_i128
three_run = refl

deposits-le-limit_example :
    let (total, s') = deposits three set_up in
    (get_cb_volume s' ≡ get_cb_volume set_up +ℤ total) × (get_cb_volume set_up +ℤ total ≤ℤ pos 1000)
unfolding get_cb_volume
deposits-le-limit_example =
    deposits-le-limit three 1000 (pos 1000) set_up refl refl refl (omega arith)
      (omega arith, (omega arith, (omega arith, tt)))

deposits_twice_limit_example :
    (deposits
      ((at_time 87399 60 6 7, 6, pos 1000) ∷ (at_time 87400 61 6 7, 6, pos 1000) ∷ [])
      set_up).0
    ≡ pos 2000
deposits_twice_limit_example =
    deposits_twice_limit (at_time 87399 60 6 7) (at_time 87400 61 6 7) 6 1000 1000 set_up
      (omega arith) (omega arith) refl refl refl refl refl refl refl refl refl

abbrev counted : State
counted = record set_up { cb_volume = some (pos 600); cb_window_start = some 1000 }

check_deposit_iff_example :
    (check_deposit (signed_by 6 7) 6 (pos 600) set_up ≡ ok (tt, counted)) ↔ (
      IsEligible (signed_by 6 7) 6 (pos 600) set_up
      × (pos 0 +ℤ pos 600 ≤ℤ pos 1000)
      × (in_i128 (pos 0 +ℤ pos 600) ≡ true)
      × (counted
          ≡ record set_up { cb_volume = some (pos 0 +ℤ pos 600); cb_window_start = some 1000 }))
unfolding get_cb_volume
check_deposit_iff_example =
    check_deposit_iff (signed_by 6 7) 6 (pos 600) (pos 1000) 1000 set_up counted refl refl refl
      (omega arith)
