-- ===== src/Tests/OracleRuns.antt =====
-- Runs of OracleAdapter.
use principal.Base.{◌≡◌, ◌↔◌, refl, List, [], ◌∷◌, some}
use principal.Base.Int.{pos}
use principal.Host.{Env, ok, err}
use principal.Host.Errors.{OracleError, oracle}
use principal.Oracle.{
  State, empty, Call, run, set_reference_value, get_reference_value, get_reference_timestamp,
  is_fresh,
}
use principal.Oracle.Updates.{IsAccepted, Grows, set_reference_value_iff, run-Grows}
use principal.Tests.Fixtures.{signed_by}

abbrev calls : List (Env × Call)
calls =
    (signed_by 1 7, Call.initialize 1)
    ∷ (signed_by 1 7, Call.set_reference_value 1 (pos 10000000) 900)
    ∷ (signed_by 2 7, Call.set_reference_value 2 (pos 50000000) 950)
    ∷ (signed_by 1 7, Call.set_reference_value 1 (pos 9000000) 960)
    ∷ (signed_by 1 7, Call.set_reference_value 1 (pos 10300000) 970)
    ∷ []

abbrev set_up : State
set_up = record { admin = some 1; price = some (pos 10300000); timestamp = some 970 }

calls_run : run calls empty ≡ set_up
unfolding run set_reference_value principal.Oracle.initialize
calls_run = refl

lower_value_panics :
    set_reference_value (signed_by 1 7) 1 (pos 10000000) 980 set_up
    ≡ err (oracle OracleError.value_decreased)
unfolding set_reference_value
lower_value_panics = refl

run-Grows_example : Grows set_up (run calls set_up)
run-Grows_example = run-Grows calls set_up

set_reference_value_iff_example :
    (set_reference_value (signed_by 1 7) 1 (pos 10400000) 990 set_up
      ≡ ok (tt, record set_up { price = some (pos 10400000); timestamp = some 990 }))
    ↔ (IsAccepted (signed_by 1 7) 1 (pos 10400000) 990 set_up
        × (record set_up { price = some (pos 10400000); timestamp = some 990 }
            ≡ record set_up { price = some (pos 10400000); timestamp = some 990 }))
set_reference_value_iff_example =
    set_reference_value_iff (signed_by 1 7) 1 (pos 10400000) 990 set_up
      (record set_up { price = some (pos 10400000); timestamp = some 990 })

value_read : get_reference_value (run calls empty) ≡ ok (pos 10300000, run calls empty)
unfolding run get_reference_value set_reference_value principal.Oracle.initialize
value_read = refl
