-- ===== src/Oracle/Updates.antt =====
-- When an update is accepted, and what no history of calls can do to the stored value.
use principal.Base.{
  ◌+◌, ℕ, ◌≤◌, ◌<◌, ◌≡◌, ◌↔◌, true, Option, none, some, List, [], ◌∷◌, arith, unwrap_or,
}
use principal.Base.Int.{ℤ, pos, ◌≤ℤ◌}
use principal.Host.{Env, ok, is_authorized}
use principal.Oracle.{
  empty, get_reference_timestamp, is_fresh, get_reference_value, State, initialize,
  set_reference_value, transfer_admin, Call, apply, run,
}

abbrev pub price_or_zero : State → ℤ
price_or_zero s = unwrap_or s.price (pos 0)

abbrev pub time_or_zero : State → ℕ
time_or_zero s = unwrap_or s.timestamp 0

-- What an update asks of the caller, of the value and of its time.
pub record IsAccepted (env : Env) (caller : ℕ) (value : ℤ) (timestamp : ℕ) (s : State)
    : Type 0 where
  pub signed : is_authorized env caller ≡ true
  pub by_admin : s.admin ≡ some caller
  pub positive : pos 1 ≤ℤ value
  pub not_below : price_or_zero s ≤ℤ value
  pub later : time_or_zero s < timestamp

-- An update succeeds exactly when it is accepted, and then stores the value and its time and
-- nothing else.
pub set_reference_value_iff :
    (env : Env) (caller : ℕ) (value : ℤ) (timestamp : ℕ) (s s' : State)
    → (set_reference_value env caller value timestamp s ≡ ok (tt, s')) ↔ (
        IsAccepted env caller value timestamp s
        × (s' ≡ record s { price = some value; timestamp = some timestamp }))
unfolding set_reference_value
set_reference_value_iff env caller value timestamp s s' = (λ h. ground arith, λ h. ground arith)

-- The value and its time are stored together, and a stored value is positive.
abbrev pub Stored : Option ℤ → Option ℕ → Type 0
Stored none none = Unit
Stored (some value) (some timestamp) = pos 1 ≤ℤ value
Stored _ _ = ⊥

-- The relation between the states before and after any calls.
pub record Grows (s s' : State) : Type 0 where
  pub price : price_or_zero s ≤ℤ price_or_zero s'
  pub time : time_or_zero s ≤ time_or_zero s'

apply-Grows : (env : Env) (call : Call) (s : State) → Grows s (apply env call s)
unfolding apply initialize set_reference_value transfer_admin
apply-Grows env (Call.initialize admin) s = ground arith
apply-Grows env (Call.set_reference_value caller value timestamp) s = ground arith
apply-Grows env (Call.transfer_admin current_admin new_admin) s = ground arith

-- No history of calls, by anybody, lowers the reference value or takes its time back.
pub run-Grows : (calls : List (Env × Call)) (s : State) → Grows s (run calls s)
unfolding run
run-Grows [] s = omega arith
run-Grows ((env, call) ∷ calls) s =
    omega (arith, apply-Grows env call s, run-Grows calls (apply env call s))

apply-Stored :
    (env : Env) (call : Call) (s : State)
    → Stored s.price s.timestamp
    → Stored (apply env call s).price (apply env call s).timestamp
unfolding apply initialize set_reference_value transfer_admin
apply-Stored env (Call.initialize admin) s h = ground arith
apply-Stored env (Call.set_reference_value caller value timestamp) s h = ground arith
apply-Stored env (Call.transfer_admin current_admin new_admin) s h = ground arith

run-Stored :
    (calls : List (Env × Call)) (s : State)
    → Stored s.price s.timestamp
    → Stored (run calls s).price (run calls s).timestamp
unfolding run
run-Stored [] s h = h
run-Stored ((env, call) ∷ calls) s h =
    run-Stored calls (apply env call s) (apply-Stored env call s h)

-- Whatever calls a new contract has seen, a value that it returns is positive and has a time, and
-- reading it changes nothing.
pub get_reference_value-pos :
    (calls : List (Env × Call)) (value : ℤ) (s' : State)
    → get_reference_value (run calls empty) ≡ ok (value, s')
    → (pos 1 ≤ℤ value)
      × (s' ≡ run calls empty)
      × ((timestamp : ℕ) × (get_reference_timestamp (run calls empty) ≡ ok (timestamp, s')))
unfolding get_reference_value get_reference_timestamp
get_reference_value-pos calls value s' h = go (run calls empty) (run-Stored calls empty tt) h
  where
    go :
        (s : State)
        → Stored s.price s.timestamp
        → get_reference_value s ≡ ok (value, s')
        → (pos 1 ≤ℤ value)
          × (s' ≡ s)
          × ((timestamp : ℕ) × (get_reference_timestamp s ≡ ok (timestamp, s')))
    go s stored e = (ground arith, ground arith, (unwrap_or s.timestamp 0, ground arith))

-- A value is fresh exactly when its time is not in the future and at most `max_stale` seconds ago;
-- a contract without a value counts as one of time 0.
pub is_fresh_iff :
    (env : Env) (max_stale : ℕ) (s : State)
    → (is_fresh env max_stale s ≡ true)
      ↔ ((time_or_zero s ≤ env.timestamp) × (env.timestamp ≤ time_or_zero s + max_stale))
unfolding is_fresh
is_fresh_iff env max_stale s = (λ h. ground arith, λ h. ground arith)
