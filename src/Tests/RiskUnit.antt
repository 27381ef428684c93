-- ===== src/Tests/RiskUnit.antt =====
-- The unit tests of RiskControl (contracts/risk_control/src/lib.rs).
use principal.Base.{
  ℕ, Bool, true, not, none, ◌≡◌, refl, List, [], ◌∷◌, ◌&&◌, ◌==◌, ◌+◌, ◌-◌, ◌/◌, ◌^◌,
}
use principal.Base.Int.{ℤ, pos, negsuc}
use principal.Host.{M, pure, gets, ◌>>=◌, ◌>>◌}
use principal.RiskControl.{
  State, initialize, pause, unpause, is_paused, add_pauser, remove_pauser, add_consumer,
  remove_consumer, check_deposit, get_cb_volume, transfer_admin, get_admin, cb_window_secs,
}
use principal.Tests.Unit.{mocked, passes, should_panic, all, eq_ℤ}

abbrev admin : ℕ
admin = 1

abbrev consumer : ℕ
consumer = 2

abbrev rando : ℕ
rando = 3

abbrev pauser : ℕ
pauser = 4

abbrev empty : State
empty = record {
  admin = none;
  paused = none;
  pauser = λ a. none;
  consumer = λ a. none;
  cb_limit = none;
  cb_volume = none;
  cb_window_start = none;
}

abbrev setup : ℤ → M State Unit
setup cb_limit = do initialize (mocked 0) admin cb_limit; add_consumer (mocked 0) admin consumer

abbrev pause_and_unpause : M State Bool
pause_and_unpause = do
  setup (pos 0)
  before ← gets is_paused
  pause (mocked 0) admin
  between ← gets is_paused
  unpause (mocked 0) admin
  after ← gets is_paused
  pure (not before && between && not after)

abbrev pauser_can_pause_but_not_unpause : M State Bool
pauser_can_pause_but_not_unpause = do
  setup (pos 0)
  add_pauser (mocked 0) admin pauser
  pause (mocked 0) pauser
  gets is_paused

abbrev non_pauser_cannot_pause : M State Unit
non_pauser_cannot_pause = do setup (pos 0); pause (mocked 0) rando

abbrev circuit_breaker_blocks_over_limit : M State Bool
circuit_breaker_blocks_over_limit = do
  setup (pos 1000000)
  check_deposit (mocked 0) consumer (pos 500000)
  check_deposit (mocked 0) consumer (pos 499999)
  pure true

abbrev circuit_breaker_trips_on_excess : M State Unit
circuit_breaker_trips_on_excess = do
  setup (pos 1000000)
  check_deposit (mocked 0) consumer (pos 500000)
  check_deposit (mocked 0) consumer (pos 600000)

abbrev circuit_breaker_disabled_when_limit_zero : M State Bool
circuit_breaker_disabled_when_limit_zero = do
  setup (pos 0)
  check_deposit (mocked 0) consumer (pos ((2 ^ 127 - 1) / 2))
  pure true

abbrev check_deposit_rejects_zero_amount : M State Unit
check_deposit_rejects_zero_amount = do
  setup (pos 1000000)
  check_deposit (mocked 0) consumer (pos 0)

abbrev check_deposit_rejects_negative_amount : M State Unit
check_deposit_rejects_negative_amount = do
  setup (pos 1000000)
  check_deposit (mocked 0) consumer (negsuc 0)

abbrev check_deposit_fails_when_paused : M State Unit
check_deposit_fails_when_paused = do
  setup (pos 0)
  pause (mocked 0) admin
  check_deposit (mocked 0) consumer (pos 1)

abbrev check_deposit_requires_registered_consumer : M State Unit
check_deposit_requires_registered_consumer = do
  setup (pos 1000000)
  check_deposit (mocked 0) rando (pos 1)

abbrev removed_consumer_loses_check_deposit_access : M State Unit
removed_consumer_loses_check_deposit_access = do
  setup (pos 1000000)
  remove_consumer (mocked 0) admin consumer
  check_deposit (mocked 0) consumer (pos 1)

abbrev add_duplicate_consumer_panics : M State Unit
add_duplicate_consumer_panics = do
  setup (pos 0)
  add_consumer (mocked 0) admin rando
  add_consumer (mocked 0) admin rando

abbrev non_admin_cannot_unpause : M State Unit
non_admin_cannot_unpause = do setup (pos 0); pause (mocked 0) admin; unpause (mocked 0) rando

abbrev circuit_breaker_window_resets_after_24h : M State Bool
circuit_breaker_window_resets_after_24h = do
  setup (pos 1000000)
  check_deposit (mocked 0) consumer (pos 900000)
  first ← gets get_cb_volume
  check_deposit (mocked (cb_window_secs + 1)) consumer (pos 900000)
  second ← gets get_cb_volume
  pure (eq_ℤ first (pos 900000) && eq_ℤ second (pos 900000))

abbrev remove_pauser_revokes_pause_permission : M State Unit
remove_pauser_revokes_pause_permission = do
  setup (pos 0)
  add_pauser (mocked 0) admin pauser
  remove_pauser (mocked 0) admin pauser
  pause (mocked 0) pauser

abbrev add_duplicate_pauser_panics : M State Unit
add_duplicate_pauser_panics = do
  setup (pos 0)
  add_pauser (mocked 0) admin pauser
  add_pauser (mocked 0) admin pauser

abbrev admin_transfer : M State Bool
admin_transfer = do
  setup (pos 0)
  transfer_admin (mocked 0) admin 7
  now ← get_admin
  pure (now == 7)

abbrev double_initialize_panics : M State Unit
double_initialize_panics = do setup (pos 0); initialize (mocked 0) admin (pos 0)

abbrev suite : List Bool
suite =
    passes empty pause_and_unpause
    ∷ passes empty pauser_can_pause_but_not_unpause
    ∷ should_panic empty non_pauser_cannot_pause
    ∷ passes empty circuit_breaker_blocks_over_limit
    ∷ should_panic empty circuit_breaker_trips_on_excess
    ∷ passes empty circuit_breaker_disabled_when_limit_zero
    ∷ should_panic empty check_deposit_rejects_zero_amount
    ∷ should_panic empty check_deposit_rejects_negative_amount
    ∷ should_panic empty check_deposit_fails_when_paused
    ∷ should_panic empty check_deposit_requires_registered_consumer
    ∷ should_panic empty removed_consumer_loses_check_deposit_access
    ∷ should_panic empty add_duplicate_consumer_panics
    ∷ should_panic empty non_admin_cannot_unpause
    ∷ passes empty circuit_breaker_window_resets_after_24h
    ∷ should_panic empty remove_pauser_revokes_pause_permission
    ∷ should_panic empty add_duplicate_pauser_panics
    ∷ passes empty admin_transfer
    ∷ should_panic empty double_initialize_panics
    ∷ []

suite_lem : all suite ≡ true
unfolding initialize add_consumer pause unpause is_paused add_pauser check_deposit
    principal.Host.checked principal.Host.in_i128 principal.Base.Int.◌+ℤ◌ remove_consumer
    get_cb_volume remove_pauser transfer_admin get_admin
suite_lem = refl
