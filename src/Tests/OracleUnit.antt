-- ===== src/Tests/OracleUnit.antt =====
-- The unit tests of OracleAdapter (contracts/oracle_adapter/src/lib.rs).
use principal.Base.{ℕ, Bool, true, not, ◌≡◌, refl, List, [], ◌∷◌, ◌&&◌, ◌==◌}
use principal.Base.Int.{pos}
use principal.Host.{M, pure, gets, ◌>>=◌, ◌>>◌}
use principal.Oracle.{
  State, empty, initialize, set_reference_value, get_reference_value, get_reference_timestamp,
  is_fresh, transfer_admin, get_admin,
}
use principal.Tests.Unit.{mocked, passes, should_panic, all, eq_ℤ}

abbrev admin : ℕ
admin = 1

abbrev setup : M State Unit
setup = initialize admin

abbrev initialize_and_set_price : M State Bool
initialize_and_set_price = do
  setup
  set_reference_value (mocked 0) admin (pos 10300000000) 1700000000
  value ← get_reference_value
  timestamp ← get_reference_timestamp
  pure (eq_ℤ value (pos 10300000000) && (timestamp == 1700000000))

abbrev value_decrease_rejected : M State Unit
value_decrease_rejected = do
  setup
  set_reference_value (mocked 0) admin (pos 10300000) 1700000000
  set_reference_value (mocked 0) admin (pos 10200000) 1700001000

abbrev value_may_stay_equal : M State Bool
value_may_stay_equal = do
  setup
  set_reference_value (mocked 0) admin (pos 10300000) 1700000000
  set_reference_value (mocked 0) admin (pos 10300000) 1700001000
  value ← get_reference_value
  pure (eq_ℤ value (pos 10300000))

abbrev double_initialize_panics : M State Unit
double_initialize_panics = do setup; initialize admin

abbrev unauthorized_price_update_panics : M State Unit
unauthorized_price_update_panics = do
  setup
  set_reference_value (mocked 0) admin (pos 10300000000) 1700000000
  set_reference_value (mocked 0) 2 (pos 20000000000) 1700001000

abbrev stale_timestamp_rejected : M State Unit
stale_timestamp_rejected = do
  setup
  set_reference_value (mocked 0) admin (pos 10300000000) 1700000000
  set_reference_value (mocked 0) admin (pos 10300000000) 1700000000

abbrev invalid_price_rejected : M State Unit
invalid_price_rejected = do setup; set_reference_value (mocked 0) admin (pos 0) 1700000000

abbrev admin_transfer : M State Bool
admin_transfer = do setup; transfer_admin (mocked 0) admin 2; now ← get_admin; pure (now == 2)

abbrev unauthorized_transfer_admin_panics : M State Unit
unauthorized_transfer_admin_panics = do setup; transfer_admin (mocked 0) 2 3

abbrev is_fresh_within_staleness_window : M State Bool
is_fresh_within_staleness_window = do
  setup
  set_reference_value (mocked 1000) admin (pos 10300000) 900
  gets (is_fresh (mocked 1000) 3600)

abbrev is_fresh_false_when_stale : M State Bool
is_fresh_false_when_stale = do
  setup
  set_reference_value (mocked 1000) admin (pos 10300000) 1
  fresh ← gets (is_fresh (mocked 1000) 100)
  pure (not fresh)

abbrev is_fresh_false_before_any_price_set : M State Bool
is_fresh_false_before_any_price_set = do
  setup
  fresh ← gets (is_fresh (mocked 5000) 3600)
  pure (not fresh)

abbrev is_fresh_at_exact_boundary : M State Bool
is_fresh_at_exact_boundary = do
  setup
  set_reference_value (mocked 1000) admin (pos 10000000) 600
  within ← gets (is_fresh (mocked 1000) 400)
  beyond ← gets (is_fresh (mocked 1000) 399)
  pure (within && not beyond)

abbrev is_fresh_false_when_stored_timestamp_is_ahead_of_ledger_clock : M State Bool
is_fresh_false_when_stored_timestamp_is_ahead_of_ledger_clock = do
  setup
  set_reference_value (mocked 1000) admin (pos 10000000) 5000
  fresh ← gets (is_fresh (mocked 1000) 3600)
  pure (not fresh)

abbrev suite : List Bool
suite =
    passes empty initialize_and_set_price
    ∷ should_panic empty value_decrease_rejected
    ∷ passes empty value_may_stay_equal
    ∷ should_panic empty double_initialize_panics
    ∷ should_panic empty unauthorized_price_update_panics
    ∷ should_panic empty stale_timestamp_rejected
    ∷ should_panic empty invalid_price_rejected
    ∷ passes empty admin_transfer
    ∷ should_panic empty unauthorized_transfer_admin_panics
    ∷ passes empty is_fresh_within_staleness_window
    ∷ passes empty is_fresh_false_when_stale
    ∷ passes empty is_fresh_false_before_any_price_set
    ∷ passes empty is_fresh_at_exact_boundary
    ∷ passes empty is_fresh_false_when_stored_timestamp_is_ahead_of_ledger_clock
    ∷ []

suite_lem : all suite ≡ true
unfolding initialize set_reference_value get_reference_value get_reference_timestamp transfer_admin
    get_admin is_fresh
suite_lem = refl
