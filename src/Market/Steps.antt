-- ===== src/Market/Steps.antt =====
-- What can happen to a market before its maturity.
use principal.Base.{ℕ, Bool, ◌≡◌, ◌<◌, false, some, put}
use principal.Base.Int.{ℤ}
use principal.Host.{Env, Views, is_authorized, commit}
use principal.Token.{Token}
use principal.World.{World}
use principal.Pt
use principal.Yt
use principal.Manager
use principal.Manager.{Joint}

module _ (token : Token) (manager pt yt maturity : ℕ) where
  -- One transaction: a call of the manager by anybody before the maturity, a call of its PT or YT
  -- contract that the manager has not authorized, or one that touches neither the manager's storage
  -- nor these two contracts, such as a call of the wrapper, of the asset or of another market.
  pub data Step : Joint token → Joint token → Type 0 where
    mints :
        (views : Views) (env : Env) (from : ℕ) (shares : ℤ) (j : Joint token)
        → env.current ≡ manager
        → env.timestamp < maturity
        → Step j (commit j (Manager.mint token views env from shares j))
    redeems :
        (views : Views) (env : Env) (from : ℕ) (pt_amount yt_amount : ℤ) (j : Joint token)
        → env.current ≡ manager
        → env.timestamp < maturity
        → Step j (commit j (Manager.redeem token views env from pt_amount yt_amount j))
    claims :
        (views : Views) (env : Env) (from : ℕ) (j : Joint token)
        → env.current ≡ manager
        → Step j (commit j (Manager.claim_yield token views env from j))
    pauses :
        (env : Env) (caller : ℕ) (paused : Bool) (j : Joint token)
        → Step j (commit j.0 (Manager.set_paused env caller paused j.0), j.1)
    hands_over :
        (env : Env) (current_admin new_admin : ℕ) (j : Joint token)
        → Step j (commit j.0 (Manager.transfer_admin env current_admin new_admin j.0), j.1)
    calls_pt :
        (views : Views) (env : Env) (call : Pt.Call) (p : Pt.State) (j : Joint token)
        → is_authorized env manager ≡ false
        → (j.1).pts pt ≡ some p
        → Step j (j.0, record (j.1) { pts = put (j.1).pts pt (Pt.apply_call views env call p) })
    calls_yt :
        (views : Views) (env : Env) (call : Yt.Call) (y : Yt.State) (j : Joint token)
        → is_authorized env manager ≡ false
        → (j.1).yts yt ≡ some y
        → Step j (j.0, record (j.1) { yts = put (j.1).yts yt (Yt.apply_call views env call y) })
    elsewhere :
        (w : World token) (j : Joint token)
        → w.pts pt ≡ (j.1).pts pt
        → w.yts yt ≡ (j.1).yts yt
        → Step j (j.0, w)

  -- Any number of transactions, in any order.
  pub data Reach (start : Joint token) : Joint token → Type 0 where
    here : Reach start start
    after : {j k : Joint token} → Reach start j → Step j k → Reach start k
