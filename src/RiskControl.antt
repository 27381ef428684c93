-- ===== src/RiskControl.antt =====
-- RiskControl (contracts/risk_control/src/lib.rs): the pause, its roles, and the circuit breaker
-- that bounds the deposits of one window.
mod Calls
pub mod Pause
pub mod Breaker
pub mod Boundary
pub use Calls.{Call}
use principal.Base.{
  ℕ, ◌+◌, ◌*◌, List, [], ◌∷◌, Bool, true, false, not, Option, none, some, ltb, leb, ◌==◌, is_some,
  unwrap_or, holds, put, if◌then◌else◌,
}
use principal.Base.Int.{ℤ, pos, ltb_ℤ, leb_ℤ, is_zero}
use principal.Host.{
  Env, M, pure, lift, gets, gets_or_panic, modify, panic_if, ◌>>=◌, ◌>>◌, require_auth, commit,
  ◌+?◌, sub_u64,
}
use principal.Host.Errors.{RiskError, risk}

-- `CB_WINDOW_SECS`
abbrev pub cb_window_secs : ℕ
cb_window_secs = 86400

-- The storage keys of `DataKey`; an absent key is `none`.
pub record State : Type 0 where
  pub admin : Option ℕ
  pub paused : Option Bool
  pub pauser : ℕ → Option Bool
  pub consumer : ℕ → Option Bool
  pub cb_limit : Option ℤ
  pub cb_volume : Option ℤ
  pub cb_window_start : Option ℕ

unfoldable pub require_admin : M State ℕ
require_admin = gets_or_panic (λ s. s.admin) (risk RiskError.not_initialized)

unfoldable pub get_admin : M State ℕ
unfolding require_admin
get_admin = require_admin

unfoldable pub assert_admin : Env → ℕ → M State Unit
unfolding require_admin
assert_admin env caller = do
  require_auth env caller
  admin ← require_admin
  panic_if (not (caller == admin)) (risk RiskError.unauthorized)

unfoldable pub initialize : Env → ℕ → ℤ → M State Unit
initialize env admin cb_limit = do
  initialized ← gets (λ s. is_some s.admin)
  panic_if initialized (risk RiskError.already_initialized)
  modify (λ s. record s {
    admin = some admin;
    paused = some false;
    cb_limit = some cb_limit;
    cb_volume = some (pos 0);
    cb_window_start = some env.timestamp;
  })

unfoldable pub is_pauser : ℕ → State → Bool
is_pauser account s = if holds s.admin account then true else unwrap_or (s.pauser account) false

unfoldable pub pause : Env → ℕ → M State Unit
unfolding is_pauser
pause env caller = do
  require_auth env caller
  may_pause ← gets (is_pauser caller)
  panic_if (not may_pause) (risk RiskError.not_pauser)
  modify (λ s. record s { paused = some true })

unfoldable pub unpause : Env → ℕ → M State Unit
unfolding assert_admin
unpause env caller = do assert_admin env caller; modify (λ s. record s { paused = some false })

unfoldable pub is_paused : State → Bool
is_paused s = unwrap_or s.paused false

unfoldable pub add_pauser : Env → ℕ → ℕ → M State Unit
unfolding assert_admin
add_pauser env caller pauser = do
  assert_admin env caller
  known ← gets (λ s. unwrap_or (s.pauser pauser) false)
  panic_if known (risk RiskError.already_pauser)
  modify (λ s. record s { pauser = put s.pauser pauser true })

unfoldable pub remove_pauser : Env → ℕ → ℕ → M State Unit
unfolding assert_admin
remove_pauser env caller pauser = do
  assert_admin env caller
  modify (λ s. record s { pauser = put s.pauser pauser false })

unfoldable pub add_consumer : Env → ℕ → ℕ → M State Unit
unfolding assert_admin
add_consumer env caller consumer = do
  assert_admin env caller
  known ← gets (λ s. unwrap_or (s.consumer consumer) false)
  panic_if known (risk RiskError.already_consumer)
  modify (λ s. record s { consumer = put s.consumer consumer true })

unfoldable pub remove_consumer : Env → ℕ → ℕ → M State Unit
unfolding assert_admin
remove_consumer env caller consumer = do
  assert_admin env caller
  modify (λ s. record s { consumer = put s.consumer consumer false })

unfoldable pub is_consumer : ℕ → State → Bool
is_consumer account s = unwrap_or (s.consumer account) false

-- The volume and the start of the window that a deposit at `now` counts against.
unfoldable pub current_window : ℕ → ℕ → ℕ → State → ℤ × ℕ
current_window now elapsed window_start s =
    if leb cb_window_secs elapsed
    then (pos 0, now)
    else (unwrap_or s.cb_volume (pos 0), window_start)

-- The part of `check_deposit` below `if limit == 0 { return; }`. The source computes the sum
-- `volume + amount` twice, and it is bound once here.
unfoldable pub count_deposit : Env → ℤ → ℤ → M State Unit
unfolding current_window
count_deposit env limit amount = do
  let now = env.timestamp
  window_start ← gets (λ s. unwrap_or s.cb_window_start now)
  elapsed ← lift (sub_u64 now window_start)
  window ← gets (current_window now elapsed window_start)
  total ← lift (window.0 +? amount)
  panic_if (ltb_ℤ limit total) (risk RiskError.circuit_breaker_tripped)
  modify (λ s. record s { cb_volume = some total; cb_window_start = some window.1 })

unfoldable pub check_deposit : Env → ℕ → ℤ → M State Unit
unfolding count_deposit
check_deposit env caller amount = do
  require_auth env caller
  registered ← gets (λ s. unwrap_or (s.consumer caller) false)
  panic_if (not registered) (risk RiskError.not_consumer)
  paused ← gets (λ s. unwrap_or s.paused false)
  panic_if paused (risk RiskError.paused)
  panic_if (leb_ℤ amount (pos 0)) (risk RiskError.zero_amount)
  limit ← gets (λ s. unwrap_or s.cb_limit (pos 0))
  if is_zero limit then pure tt else count_deposit env limit amount

unfoldable pub set_cb_limit : Env → ℕ → ℤ → M State Unit
unfolding assert_admin
set_cb_limit env caller new_limit = do
  assert_admin env caller
  modify (λ s. record s { cb_limit = some new_limit })

unfoldable pub get_cb_limit : State → ℤ
get_cb_limit s = unwrap_or s.cb_limit (pos 0)

unfoldable pub get_cb_volume : State → ℤ
get_cb_volume s = unwrap_or s.cb_volume (pos 0)

unfoldable pub transfer_admin : Env → ℕ → ℕ → M State Unit
unfolding assert_admin
transfer_admin env current_admin new_admin = do
  assert_admin env current_admin
  modify (λ s. record s { admin = some new_admin })

unfoldable pub apply : Env → Call → State → State
apply env (Call.initialize admin limit) s = commit s (initialize env admin limit s)
apply env (Call.pause caller) s = commit s (pause env caller s)
apply env (Call.unpause caller) s = commit s (unpause env caller s)
apply env (Call.add_pauser caller a) s = commit s (add_pauser env caller a s)
apply env (Call.remove_pauser caller a) s = commit s (remove_pauser env caller a s)
apply env (Call.add_consumer caller a) s = commit s (add_consumer env caller a s)
apply env (Call.remove_consumer caller a) s = commit s (remove_consumer env caller a s)
apply env (Call.check_deposit caller amount) s = commit s (check_deposit env caller amount s)
apply env (Call.set_cb_limit caller limit) s = commit s (set_cb_limit env caller limit s)
apply env (Call.transfer_admin caller a) s = commit s (transfer_admin env caller a s)

unfoldable pub run : List (Env × Call) → State → State
unfolding apply
run [] s = s
run ((env, call) ∷ calls) s = run calls (apply env call s)
