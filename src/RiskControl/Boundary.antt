-- ===== src/RiskControl/Boundary.antt =====
-- The end of one window of the circuit breaker of RiskControl and the start of the next.
use principal.Base.{ℕ, ◌+◌, ◌<◌, ◌^◌, ◌≡◌, true, some, [], ◌∷◌, arith, unwrap_or, false}
use principal.Base.Int.{pos, ◌+ℤ◌}
use principal.Host.{Env, is_authorized, checked_pos}
use principal.RiskControl.{State, cb_window_secs, check_deposit}
use principal.RiskControl.Breaker.{deposits}

-- For every limit of a contract whose window holds no volume yet, two deposits of the whole limit
-- are both let through, one in the last second of the window and one in the next second.
pub deposits_twice_limit :
    (last next : Env) (caller limit start : ℕ) (s : State)
    → 0 < limit
    → limit < 2 ^ 127
    → s.cb_limit ≡ some (pos limit)
    → s.cb_volume ≡ some (pos 0)
    → s.cb_window_start ≡ some start
    → s.consumer caller ≡ some true
    → unwrap_or s.paused false ≡ false
    → is_authorized last caller ≡ true
    → is_authorized next caller ≡ true
    → last.timestamp + 1 ≡ start + cb_window_secs
    → next.timestamp ≡ last.timestamp + 1
    → (deposits ((last, caller, pos limit) ∷ (next, caller, pos limit) ∷ []) s).0
      ≡ pos (limit + limit)
unfolding deposits check_deposit ◌+ℤ◌
deposits_twice_limit last next caller limit start s hp hb hl hv hs hc hr a b t u =
    ground (arith, checked_pos limit hb)
