-- ===== src/Manager/Yielding.antt =====
-- What the operations of PrincipalManager pay for YT: the yield that the account could collect.
use principal.Base.{ap, ℕ, zero, suc, ◌≡◌, ◌∙◌, some, arith, unwrap_or, if◌then◌else◌}
use principal.Base.Int.{negsuc, negsuc, ℤ, pos, ltb_ℤ}
use principal.Host.{Env, Views, Result, ok, err, pure, commit, called_by}
use principal.Token.{Token}
use principal.World.{World, call_yt, call_yt_ok, yt_again}
use principal.Sy
use principal.Sy.Soundness.{IsSound}
use principal.Yt
use principal.Yt.Claimable.{claimable}
use principal.Yt.Claims.{Burned-claimable}
use principal.Yt.Collecting.{claim_yield-Collected}
use principal.Yt.Issue.{burn_ok}
use principal.Manager.Entry.{claim_yield, Joint, pay_out, redeem_yt}
use principal.Manager.Redeeming.{Paid-par, pay_out_ok}
use principal.Manager.Moving.{Moves, pay_any-Moves}
use principal.Manager.Claiming.{payable, claim_yield_ok}

module _ (token : Token) where
  module _ (views : Views) (env : Env) (sy from : ℕ) (amount : ℤ) (j : Joint token) where
    abbrev yt_at : ℕ
    yt_at = unwrap_or ((j.0).yt_token) 0

    abbrev update : Result (Unit {0} × World token)
    update = call_yt token yt_at (Yt.update_yield_index views) j.1

    abbrev burn : Result (Unit {0} × World token)
    burn = call_yt token yt_at (Yt.burn (called_by env yt_at) from amount) (commit j.1 update)

    abbrev claim : Result (ℤ × World token)
    claim =
        call_yt token yt_at (Yt.claim_yield (called_by env yt_at) env.current from)
          (commit (commit j.1 update) burn)

    abbrev claim_of : ℤ
    claim_of = elim claim [ ok r ↦ r.0 | err _ ↦ pos 0 ]

    abbrev world_of : World token
    world_of = commit (commit (commit j.1 update) burn) claim

    redeem_yt_run :
        (paid : ℤ) (j' : Joint token)
        → redeem_yt token views env sy from amount j ≡ ok (paid, j')
        → (update ≡ ok (tt, commit j.1 update))
          × (burn ≡ ok (tt, commit (commit j.1 update) burn))
          × (claim ≡ ok (claim_of, world_of))
          × ((j.0).yt_token ≡ some yt_at)
          × ((if ltb_ℤ (pos 0) claim_of
                  then pay_out token views env sy from claim_of
                  else pure (pos 0))
                (j.0, world_of)
              ≡ ok (paid, j'))
    unfolding redeem_yt
    redeem_yt_run paid j' h = (ground arith, ground arith, ground arith, ground arith, ground arith)

  paid_out_for :
      (views : Views) (env : Env) (sy from : ℕ) (claimed paid : ℤ) (s : Sy.State)
      (j j' : Joint token)
      → (j.1).sys sy ≡ some s
      → IsSound s
      → (if ltb_ℤ (pos 0) claimed then pay_out token views env sy from claimed else pure (pos 0)) j
        ≡ ok (paid, j')
      → paid ≡ payable claimed
  paid_out_for views env sy from (pos zero) paid s j j' hs sound h = ground arith
  paid_out_for views env sy from (negsuc n) paid s j j' hs sound h = ground arith
  paid_out_for views env sy from (pos (suc n)) paid s j j' hs sound h =
      let e = pay_out_ok token views env sy from (pos (suc n)) paid j j' (ground arith) in
      Paid-par token views env sy from (suc n) paid s j j' hs sound e ∙ ground arith

  -- What an account could collect from a YT contract at the oracle's present rate.
  pub record Collectable (views : Views) (account : ℕ) (y : Yt.State) (amount : ℤ) : Type 0 where
    pub updated : Yt.State
    pub current : Yt.update_yield_index views y ≡ ok (tt, updated)
    pub whole : amount ≡ claimable account updated

  pub redeem_yt-Collectable :
      (views : Views) (env : Env) (sy from yt : ℕ) (amount paid : ℤ) (s : Sy.State) (y : Yt.State)
      (j j' : Joint token)
      → (j.1).sys sy ≡ some s
      → IsSound s
      → (j.0).yt_token ≡ some yt
      → (j.1).yts yt ≡ some y
      → redeem_yt token views env sy from amount j ≡ ok (paid, j')
      → (claimed : ℤ) × Collectable views from y claimed × (paid ≡ payable claimed)
  redeem_yt-Collectable views env sy from yt amount paid s y j j' hs sound hyt hy h =
      let (a, b, c, has, rest) = redeem_yt_run views env sy from amount j paid j' h in
      let k = unwrap_or ((j.0).yt_token) 0 in
      let e = called_by env k in
      let first = call_yt_ok token k (Yt.update_yield_index views) {w = j.1} a in
      let second = call_yt_ok token k (Yt.burn e from amount) b in
      let third = call_yt_ok token k (Yt.claim_yield e env.current from) c in
      let at_y : first.before ≡ y = grind (arith, first.at_address) in
      let burned = yt_again token k _ _ first second in
      let emptied = yt_again token k _ _ second third in
      let burn = burn_ok e first.after second.after from amount (rw burned at second.ran) in
      let collected =
        claim_yield-Collected e env.current from _ second.after third.after
          (rw emptied at third.ran) in
      (
        claim_of views env sy from amount j,
        record {
          updated = first.after;
          current = rw at_y at first.ran;
          whole =
              collected.2.whole ∙ Burned-claimable e from from amount first.after second.after burn;
        },
        paid_out_for views env sy from (claim_of views env sy from amount j) paid s _ j'
            (rw (third.effects, second.effects, first.effects) hs) sound rest,
      )

  pub redeem_yt-Moves :
      (views : Views) (env : Env) (sy from asset : ℕ) (amount paid : ℤ) (s : Sy.State)
      (j j' : Joint token)
      → (j.1).sys sy ≡ some s
      → s.underlying ≡ some asset
      → redeem_yt token views env sy from amount j ≡ ok (paid, j')
      → Moves token asset sy from paid (j.1).ledger (j'.1).ledger
  redeem_yt-Moves views env sy from asset amount paid s j j' hs hu h =
      let (a, b, c, _, rest) = redeem_yt_run views env sy from amount j paid j' h in
      let k = unwrap_or ((j.0).yt_token) 0 in
      let e = called_by env k in
      let first = call_yt_ok token k (Yt.update_yield_index views) {w = j.1} a in
      let w1 = commit j.1 (update views env sy from amount j) in
      let second = call_yt_ok token k (Yt.burn e from amount) {w = w1} b in
      let w2 = commit w1 (burn views env sy from amount j) in
      let third = call_yt_ok token k (Yt.claim_yield e env.current from) {w = w2} c in
      let w = world_of views env sy from amount j in
      let kept : w.ledger ≡ (j.1).ledger =
        ap (λ x. World.ledger x) third.effects
        ∙ ap (λ x. World.ledger x) second.effects
        ∙ ap (λ x. World.ledger x) first.effects in
      let moves =
        pay_any-Moves token views env sy from asset (claim_of views env sy from amount j) paid s
          (j.0, w) j' (rw (third.effects, second.effects, first.effects) hs) hu rest in
      rw kept at moves

  -- With a wrapper whose books are sound, a claim that succeeds returns everything that the account
  -- could collect at the oracle's present rate, settled or not, and nothing if there is none; and of
  -- the wrapper's asset exactly that has moved from the wrapper to the account, and nothing else.
  pub claim_yield-pays :
      (views : Views) (env : Env) (from sy yt asset : ℕ) (paid : ℤ) (s : Sy.State) (y : Yt.State)
      (j j' : Joint token)
      → (j.0).sy_wrapper ≡ some sy
      → (j.1).sys sy ≡ some s
      → IsSound s
      → s.underlying ≡ some asset
      → (j.0).yt_token ≡ some yt
      → (j.1).yts yt ≡ some y
      → claim_yield token views env from j ≡ ok (paid, j')
      → (claimed : ℤ) × Collectable views from y claimed
        × (paid ≡ payable claimed)
        × Moves token asset sy from paid (j.1).ledger (j'.1).ledger
  claim_yield-pays views env from sy yt asset paid s y j j' hsy hs sound hu hyt hy h =
      let (claimed, w, c, e, moves) =
        claim_yield_ok token views env from sy asset paid s j j' hsy hs sound hu h in
      let at_y : c.index_current.before ≡ y = grind (arith, c.index_current.at_address, c.has_yt) in
      let next = yt_again token c.yt _ _ c.index_current c.cleared in
      let collected =
        claim_yield-Collected (called_by env c.yt) env.current from claimed c.index_current.after
          c.cleared.after (rw next at c.cleared.ran) in
      (
        claimed,
        record {
          updated = c.index_current.after;
          current = rw at_y at c.index_current.ran;
          whole = collected.2.whole;
        },
        e,
        moves,
      )
