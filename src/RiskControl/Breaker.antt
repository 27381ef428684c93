-- ===== src/RiskControl/Breaker.antt =====
-- The circuit breaker: when a deposit is let through, and how much can be let through.
use principal.Base.{
  if◌then◌else◌, leb, ◌↔◌, unwrap_or, true, ◌≤◌, All, ℕ, ◌+◌, ◌<◌, ◌≡◌, false, some, List, [], ◌∷◌,
}
use principal.Base.Int.{ℤ, pos, ◌≤ℤ◌, ◌+ℤ◌, int_laws, is_zero}
use principal.Host.{in_i128, checked, is_authorized, commit, Env, Result, ok, err, checked_ok}
use principal.RiskControl.{State, cb_window_secs, check_deposit, get_cb_volume}

-- Deposits that consumers report, one transaction each: caller and amount.
abbrev pub Deposit : Type 0
Deposit = Env × ℕ × ℤ

-- The amount that a call lets through: its own, or nothing if it panics.
abbrev pub let_through : {A : Type 0} → ℤ → Result A → ℤ
let_through amount (ok _) = amount
let_through amount (err _) = pos 0

-- The amounts let through, and the state that is left.
unfoldable pub deposits : List Deposit → State → ℤ × State
deposits [] s = (pos 0, s)
deposits ((env, caller, amount) ∷ rest) s =
    let result = check_deposit env caller amount s in
    let (total, s') = deposits rest (commit s result) in (let_through amount result +ℤ total, s')

-- A deposit of a contract with a limit, in the window that began at `start` or before it.
pub record Counts (start : ℕ) (limit : ℤ) (amount : ℤ) (s : State) (result : Result (Unit × State))
    : Type 0 where
  pub start_kept : (commit s result).cb_window_start ≡ some start
  pub limit_kept : (commit s result).cb_limit ≡ some limit
  pub counted : get_cb_volume (commit s result) ≡ get_cb_volume s +ℤ let_through amount result
  pub within : get_cb_volume (commit s result) ≤ℤ limit

check_deposit-Counts :
    (env : Env) (caller : ℕ) (amount : ℤ) (start : ℕ) (limit : ℤ) (s : State)
    → s.cb_window_start ≡ some start
    → s.cb_limit ≡ some limit
    → is_zero limit ≡ false
    → get_cb_volume s ≤ℤ limit
    → env.timestamp < start + cb_window_secs
    → Counts start limit amount s (check_deposit env caller amount s)
unfolding check_deposit get_cb_volume
check_deposit-Counts env caller amount start limit s hs hl nz hv ht =
    grind (int_laws, checked_ok (get_cb_volume s +ℤ amount))

-- While the ledger clock is inside one window, what is let through and what was counted before add
-- up to the counted volume, which stays within the limit, whoever calls and in whatever order.
pub deposits-le-limit :
    (list : List Deposit) (start : ℕ) (limit : ℤ) (s : State)
    → s.cb_window_start ≡ some start
    → s.cb_limit ≡ some limit
    → is_zero limit ≡ false
    → get_cb_volume s ≤ℤ limit
    → All (λ deposit. deposit.0.timestamp < start + cb_window_secs) list
    → let (total, s') = deposits list s in
      (get_cb_volume s' ≡ get_cb_volume s +ℤ total) × (get_cb_volume s +ℤ total ≤ℤ limit)
unfolding deposits
deposits-le-limit [] start limit s hs hl nz hv ht = omega int_laws
deposits-le-limit ((env, caller, amount) ∷ rest) start limit s hs hl nz hv ht =
    let result = check_deposit env caller amount s in
    let one = check_deposit-Counts env caller amount start limit s hs hl nz hv ht.0 in
    let more =
      deposits-le-limit rest start limit (commit s result) one.start_kept one.limit_kept nz
        one.within ht.1 in
    grind (int_laws, one.counted, more.0, more.1)

-- What a deposit needs to be let through: a registered consumer's authorization, no pause, a
-- positive amount.
pub record IsEligible (env : Env) (caller : ℕ) (amount : ℤ) (s : State) : Type 0 where
  pub signed : is_authorized env caller ≡ true
  pub registered : s.consumer caller ≡ some true
  pub running : unwrap_or s.paused false ≡ false
  pub positive : pos 1 ≤ℤ amount

-- The volume that counts at `now`: that of the window, unless the window has run out.
abbrev pub volume_at : ℕ → ℕ → State → ℤ
volume_at now start s = if leb (start + cb_window_secs) now then pos 0 else get_cb_volume s

-- The start of the window that counts at `now`.
abbrev pub start_at : ℕ → ℕ → ℕ
start_at now start = if leb (start + cb_window_secs) now then now else start

-- With a limit set and a clock that has not gone back, a call succeeds exactly when the deposit is
-- eligible and, with the volume that counts at its time, fits the limit and an `i128`; it then
-- stores the new volume and the start of its window and nothing else.
pub check_deposit_iff :
    (env : Env) (caller : ℕ) (amount limit : ℤ) (start : ℕ) (s s' : State)
    → s.cb_limit ≡ some limit
    → is_zero limit ≡ false
    → s.cb_window_start ≡ some start
    → start ≤ env.timestamp
    → let total = volume_at env.timestamp start s +ℤ amount in
      (check_deposit env caller amount s ≡ ok (tt, s')) ↔ (
        IsEligible env caller amount s
        × (total ≤ℤ limit)
        × (in_i128 total ≡ true)
        × (s' ≡ record s {
          cb_volume = some total;
          cb_window_start = some (start_at env.timestamp start);
        }))
unfolding check_deposit get_cb_volume checked
check_deposit_iff env caller amount limit start s s' hl nz hs ht =
    (λ h. grind int_laws, λ h. grind int_laws)
