-- ===== src/Manager/Legs.antt =====
-- `redeem` of PrincipalManager with both its legs: what the YT leg pays after the PT leg.
use principal.Base.{ℕ, zero, suc, ◌≡◌, ◌∙◌, some, ap, arith, refl}
use principal.Base.Int.{negsuc, ℤ, pos, ◌+ℤ◌}
use principal.Host.{Env, Views, ok, called_by}
use principal.Token.{Token}
use principal.Sy
use principal.Sy.Soundness.{IsSound, Withdrawn-IsSound}
use principal.Sy.Custody.{withdraw_ok}
use principal.Yt
use principal.Manager.Entry.{Joint, redeem, redeem_yt}
use principal.Manager.Redeeming.{Paid, redeem_pt_ok}
use principal.Manager.Store.{RedeemResult}
use principal.Manager.Moving.{Moves, none-Moves, Moves-trans, Paid-Moves}
use principal.Manager.Yielding.{redeem_yt-Moves, Collectable, redeem_yt-Collectable}
use principal.Manager.Claiming.{payable}
use principal.Manager.Maturity.{redeem_ok, pt_leg}

module _ (token : Token) where
  -- What the PT leg of a redemption leaves for the YT leg.
  record Left (sy from : ℕ) (paid : ℤ) (s : Sy.State) (j k : Joint token) : Type 0 where
    wrapper : Sy.State
    at_address : (k.1).sys sy ≡ some wrapper
    sound : IsSound wrapper
    same_yts : (k.1).yts ≡ (j.1).yts
    same_storage : k.0 ≡ j.0
    same_underlying : wrapper.underlying ≡ s.underlying
    moves :
        (asset : ℕ)
        → s.underlying ≡ some asset
        → Moves token asset sy from paid (j.1).ledger (k.1).ledger

  Paid-Left :
      (views : Views) (env : Env) (sy from : ℕ) (desired paid : ℤ) (s : Sy.State)
      (j k : Joint token)
      → (j.1).sys sy ≡ some s
      → IsSound s
      → Paid token views env sy from desired paid j k
      → Left sy from paid s j k
  Paid-Left views env sy from desired paid s j k hs sound p =
      let before : p.withdrawn.before ≡ s = grind (arith, p.withdrawn.at_address) in
      record {
        wrapper = p.withdrawn.after;
        at_address = rw p.withdrawn.effects (ground arith);
        sound =
            Withdrawn-IsSound sound
              (withdraw_ok token views (called_by env sy) env.current p.shares from paid
                (s, (j.1).ledger) _ (rw before at p.withdrawn.ran)).effects;
        same_yts = ap (λ w. w.yts) p.withdrawn.effects;
        same_storage = p.storage_kept;
        same_underlying =
            ap (λ w. w.underlying)
              ((withdraw_ok token views (called_by env sy) env.current p.shares from paid
                (s, (j.1).ledger) _ (rw before at p.withdrawn.ran)).effects.effects);
        moves = λ asset hu. Paid-Moves token views env sy from asset desired paid s j k hs hu p;
      }

  nothing-Left :
      (sy from : ℕ) (paid : ℤ) (s : Sy.State) (j k : Joint token)
      → (j.1).sys sy ≡ some s
      → IsSound s
      → paid ≡ pos 0
      → k ≡ j
      → Left sy from paid s j k
  nothing-Left sy from paid s j k hs sound p e =
      rw (p, e)
        (record {
          wrapper = s;
          at_address = hs;
          sound = sound;
          same_yts = refl;
          same_storage = refl;
          same_underlying = refl;
          moves = λ asset hu. none-Moves token asset sy from (j.1).ledger;
        })

  pt_leg-Left :
      (views : Views) (env : Env) (sy from : ℕ) (amount rate paid : ℤ) (s : Sy.State)
      (j k : Joint token)
      → (j.1).sys sy ≡ some s
      → IsSound s
      → pt_leg token views env sy from amount rate j ≡ ok (paid, k)
      → Left sy from paid s j k
  pt_leg-Left views env sy from (pos zero) rate paid s j k hs sound h =
      nothing-Left sy from paid s j k hs sound (ground arith) (ground arith)
  pt_leg-Left views env sy from (negsuc n) rate paid s j k hs sound h =
      nothing-Left sy from paid s j k hs sound (ground arith) (ground arith)
  pt_leg-Left views env sy from (pos (suc m)) rate paid s j k hs sound h =
      let p = redeem_pt_ok token views env sy from (pos (suc m)) rate paid j k (ground arith) in
      let l =
        Paid-Left views env sy from p.desired paid s p.burned k (rw p.tokens_in.effects hs) sound
          p.paid_out in
      record {
        wrapper = l.wrapper;
        at_address = l.at_address;
        sound = l.sound;
        same_yts = l.same_yts ∙ ap (λ w. w.yts) p.tokens_in.effects;
        same_storage = l.same_storage ∙ p.same_storage;
        same_underlying = l.same_underlying;
        moves = λ asset hu.
            let m = l.moves asset hu in
            let kept = ap (λ w. w.ledger) p.tokens_in.effects in rw kept at m;
      }

  -- With a wrapper whose books are sound, a redemption of one or more YT that succeeds, whatever PT
  -- it redeems too, returns for the YT everything that the account could collect at the oracle's
  -- present rate, settled or not, and nothing if there is none; the number of the YT that it burns
  -- does not matter.
  pub redeem-yt_collects :
      (views : Views) (env : Env) (from n sy yt : ℕ) (pt_amount : ℤ) (result : RedeemResult)
      (s : Sy.State) (y : Yt.State) (j j' : Joint token)
      → (j.0).sy_wrapper ≡ some sy
      → (j.1).sys sy ≡ some s
      → IsSound s
      → (j.0).yt_token ≡ some yt
      → (j.1).yts yt ≡ some y
      → redeem token views env from pt_amount (pos (suc n)) j ≡ ok (result, j')
      → (claimed : ℤ) × Collectable token views from y claimed
        × (result.underlying_from_yt ≡ payable claimed)
  redeem-yt_collects views env from n sy yt pt_amount result s y j j' hsy hs sound hyt hy h =
      let p = redeem_ok token views env from pt_amount (pos (suc n)) result j j' h in
      let same : p.sy ≡ sy = grind (arith, p.has_sy) in
      let l =
        pt_leg-Left views env sy from pt_amount p.final_rate result.underlying_from_pt s j p.middle
          hs sound (rw same at p.first) in
      let leg : redeem_yt token views env sy from (pos (suc n)) p.middle
          ≡ ok (result.underlying_from_yt, j') =
        let g = rw same at p.second in ground arith in
      redeem_yt-Collectable token views env sy from yt (pos (suc n)) result.underlying_from_yt
        l.wrapper y p.middle j' l.at_address l.sound (rw l.same_storage hyt) (rw l.same_yts hy) leg

  -- A redemption that succeeds moves what it returns for both legs from the wrapper to the account.
  redeem-Moves :
      (views : Views) (env : Env) (from n sy asset : ℕ) (pt_amount : ℤ) (result : RedeemResult)
      (s : Sy.State) (j j' : Joint token)
      → (j.0).sy_wrapper ≡ some sy
      → (j.1).sys sy ≡ some s
      → IsSound s
      → s.underlying ≡ some asset
      → redeem token views env from pt_amount (pos (suc n)) j ≡ ok (result, j')
      → Moves token asset sy from
          (result.underlying_from_pt +ℤ result.underlying_from_yt)
          (j.1).ledger
          (j'.1).ledger
  redeem-Moves views env from n sy asset pt_amount result s j j' hsy hs sound hu h =
      let p = redeem_ok token views env from pt_amount (pos (suc n)) result j j' h in
      let same : p.sy ≡ sy = grind (arith, p.has_sy) in
      let l =
        pt_leg-Left views env sy from pt_amount p.final_rate result.underlying_from_pt s j p.middle
          hs sound (rw same at p.first) in
      let leg : redeem_yt token views env sy from (pos (suc n)) p.middle
          ≡ ok (result.underlying_from_yt, j') =
        let g = rw same at p.second in ground arith in
      Moves-trans token asset sy from result.underlying_from_pt result.underlying_from_yt
        (j.1).ledger ((p.middle).1).ledger (j'.1).ledger (l.moves asset hu)
        (redeem_yt-Moves token views env sy from asset (pos (suc n)) result.underlying_from_yt
          l.wrapper p.middle j' l.at_address (l.same_underlying ∙ hu) leg)

  -- With a wrapper whose books are sound, a redemption of one or more YT that succeeds, whatever PT
  -- it redeems too, returns for the YT everything that the account could collect at the oracle's
  -- present rate, settled or not, and nothing if there is none: the number of the YT that it burns
  -- does not matter. Of the wrapper's asset exactly what it returns for the two legs has moved from
  -- the wrapper to the account, and nothing else.
  pub redeem-yt_pays :
      (views : Views) (env : Env) (from n sy yt asset : ℕ) (pt_amount : ℤ) (result : RedeemResult)
      (s : Sy.State) (y : Yt.State) (j j' : Joint token)
      → (j.0).sy_wrapper ≡ some sy
      → (j.1).sys sy ≡ some s
      → IsSound s
      → s.underlying ≡ some asset
      → (j.0).yt_token ≡ some yt
      → (j.1).yts yt ≡ some y
      → redeem token views env from pt_amount (pos (suc n)) j ≡ ok (result, j')
      → (claimed : ℤ) × Collectable token views from y claimed
        × (result.underlying_from_yt ≡ payable claimed)
        × Moves token asset sy from
            (result.underlying_from_pt +ℤ result.underlying_from_yt)
            (j.1).ledger
            (j'.1).ledger
  redeem-yt_pays views env from n sy yt asset pt_amount result s y j j' hsy hs sound hu hyt hy h =
      let (claimed, c, e) =
        redeem-yt_collects views env from n sy yt pt_amount result s y j j' hsy hs sound hyt hy h in
      (
        claimed,
        c,
        e,
        redeem-Moves views env from n sy asset pt_amount result s j j' hsy hs sound hu h,
      )
