-- ===== src/Escrow/Finalizing.antt =====
-- What finalizing seized PT and YT recovers.
use principal.Base.{ℕ, suc, ◌*◌, ◌/◌, ◌≡◌, ◌≤◌, ◌∙◌, true, some, arith, unwrap_or}
use principal.Base.Int.{◌≤ℤ◌, ℤ, pos}
use principal.Host.{Env, Views, ok, is_authorized, called_by, and_then_ok, and_then}
use principal.Token.{Token}
use principal.World.{found, found_ok}
use principal.Sy
use principal.Sy.Soundness.{IsSound}
use principal.Manager
use principal.Manager.{RedeemResult, u64_max}
use principal.Manager.Claiming.{payable}
use principal.Manager.Yielding.{Collectable}
use principal.Manager.Legs.{redeem-yt_collects}
use principal.Yt
use principal.Manager.Maturity.{redeem-pt_floor}
use principal.Escrow.Entry.{Joint, call_manager, finalize_pt, finalize_yt}

module _ (token : Token) where
  -- `redeem` as the escrow calls it, on the manager's state.
  finalize_called :
      (views : Views) (env : Env) (caller : ℕ) (amount recovered : ℤ) (manager : ℕ)
      (j j' : Joint token)
      → (j.0).principal_manager ≡ some manager
      → finalize_pt token views env caller amount j ≡ ok (recovered, j')
      → (is_authorized env caller ≡ true)
        × (views.sac_admin (unwrap_or ((j.0).underlying) 0) ≡ ok caller)
        × and_then {B = ℤ × Joint token}
            (call_manager token manager
              (Manager.redeem token views (called_by env manager) env.current amount (pos 0))
              j)
            (λ r. ok (RedeemResult.underlying_from_pt (r.0), r.1))
          ≡ ok (recovered, j')
  unfolding finalize_pt
  finalize_called views env caller amount recovered manager j j' hm h =
      (ground arith, ground arith, ground arith)

  -- The redemption that the call of the manager has run, and the part of its result that is returned.
  manager_redeemed :
      (field : RedeemResult → ℤ) (views : Views) (env : Env) (manager : ℕ) (pt yt recovered : ℤ)
      (ms : Manager.State) (j j' : Joint token)
      → (j.1).0 manager ≡ some ms
      → and_then {B = ℤ × Joint token}
          (call_manager token manager
            (Manager.redeem token views (called_by env manager) env.current pt yt)
            j)
          (λ r. ok (field (r.0), r.1))
        ≡ ok (recovered, j')
      → (q : RedeemResult × Manager.Joint token) × (Manager.redeem token views
            (called_by env manager)
            env.current
            pt
            yt
            (ms, (j.1).1)
          ≡ ok q)
        × (recovered ≡ field (q.0))
  manager_redeemed field views env manager pt yt recovered ms j j' hms e =
      let (p, e1, g1) =
        and_then_ok
          (call_manager token manager
            (Manager.redeem token views (called_by env manager) env.current pt yt) j)
          e in
      let (found_ms, e2, g2) = and_then_ok (found ((j.1).0 manager)) e1 in
      let same : found_ms ≡ ms = grind (arith, found_ok ((j.1).0 manager) e2) in
      let (q, e3, g3) =
        and_then_ok
          (Manager.redeem token views (called_by env manager) env.current pt yt (found_ms, (j.1).1))
          g2 in
      let back : recovered ≡ field (q.0) = cc in (q, rw same at e3, back)

  -- Finalizing m seized PT, if it succeeds, was signed by the issuer and done at or after the
  -- manager's maturity; with a wrapper whose books are sound and an oracle rate R it recovers
  -- exactly m times the scale divided by R, rounded down.
  pub finalize_pt-floor :
      (views : Views) (env : Env) (caller manager sy m r : ℕ) (recovered : ℤ) (ms : Manager.State)
      (s : Sy.State) (j j' : Joint token)
      → (j.0).principal_manager ≡ some manager
      → (j.1).0 manager ≡ some ms
      → ms.sy_wrapper ≡ some sy
      → ((j.1).1).sys sy ≡ some s
      → IsSound s
      → views.get_reference_value (unwrap_or ms.oracle 0) ≡ ok (pos (suc r))
      → finalize_pt token views env caller (pos m) j ≡ ok (recovered, j')
      → (is_authorized env caller ≡ true)
        × (views.sac_admin (unwrap_or ((j.0).underlying) 0) ≡ ok caller)
        × (unwrap_or ms.maturity u64_max ≤ env.timestamp)
        × (recovered ≡ pos (m * 10000000 / suc r))
  finalize_pt-floor views env caller manager sy m r recovered ms s j j' hm hms hsy hs sound hr h =
      let (signed, issuer, e) =
        finalize_called views env caller (pos m) recovered manager j j' hm h in
      let (q, e3, back) =
        manager_redeemed RedeemResult.underlying_from_pt views env manager (pos m) (pos 0) recovered
          ms j j' hms e in
      let (_, mature, floor) =
        redeem-pt_floor token views (called_by env manager) env.current m r sy (pos 0) q.0 s
          (ms, (j.1).1) q.1 hsy hs sound hr e3 in
      (signed, issuer, mature, back ∙ floor)

  yt_called :
      (views : Views) (env : Env) (caller : ℕ) (amount recovered : ℤ) (manager : ℕ)
      (j j' : Joint token)
      → (j.0).principal_manager ≡ some manager
      → finalize_yt token views env caller amount j ≡ ok (recovered, j')
      → (is_authorized env caller ≡ true)
        × (views.sac_admin (unwrap_or ((j.0).underlying) 0) ≡ ok caller)
        × (pos 1 ≤ℤ amount)
        × and_then {B = ℤ × Joint token}
            (call_manager token manager
              (Manager.redeem token views (called_by env manager) env.current (pos 0) amount)
              j)
            (λ r. ok (RedeemResult.underlying_from_yt (r.0), r.1))
          ≡ ok (recovered, j')
  unfolding finalize_yt
  yt_called views env caller amount recovered manager j j' hm h =
      (ground arith, ground arith, ground arith, ground arith)

  -- Finalizing one or more seized YT, if it succeeds, was signed by the issuer and, with a wrapper
  -- whose books are sound, recovers everything that the escrow itself could collect at the oracle's
  -- present rate.
  pub finalize_yt-pays :
      (views : Views) (env : Env) (caller manager sy yt n : ℕ) (recovered : ℤ) (ms : Manager.State)
      (s : Sy.State) (y : Yt.State) (j j' : Joint token)
      → (j.0).principal_manager ≡ some manager
      → (j.1).0 manager ≡ some ms
      → ms.sy_wrapper ≡ some sy
      → ((j.1).1).sys sy ≡ some s
      → IsSound s
      → ms.yt_token ≡ some yt
      → ((j.1).1).yts yt ≡ some y
      → finalize_yt token views env caller (pos (suc n)) j ≡ ok (recovered, j')
      → (is_authorized env caller ≡ true)
        × (views.sac_admin (unwrap_or ((j.0).underlying) 0) ≡ ok caller)
        × (claimed : ℤ) × Collectable token views env.current y claimed
        × (recovered ≡ payable claimed)
  finalize_yt-pays views env caller manager sy yt n recovered ms s y j j' hm hms hsy hs sound hyt hy
        h =
      let (signed, issuer, _, e) =
        yt_called views env caller (pos (suc n)) recovered manager j j' hm h in
      let (q, e3, back) =
        manager_redeemed RedeemResult.underlying_from_yt views env manager (pos 0) (pos (suc n))
          recovered ms j j' hms e in
      let (claimed, c, paid) =
        redeem-yt_collects token views (called_by env manager) env.current n sy yt (pos 0) q.0 s y
          (ms, (j.1).1) q.1 hsy hs sound hyt hy e3 in
      (signed, issuer, claimed, c, back ∙ paid)
