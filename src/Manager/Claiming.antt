-- ===== src/Manager/Claiming.antt =====
-- What a successful `claim_yield` of PrincipalManager has checked, settled and paid.
use principal.Base.{ℕ, zero, suc, ◌≡◌, ◌∙◌, ap, some, arith, unwrap_or, if◌then◌else◌}
use principal.Base.Int.{ℤ, pos, negsuc, ltb_ℤ}
use principal.Host.{Env, Views, Result, ok, err, pure, commit, called_by}
use principal.Token.{Token}
use principal.World.{World, CalledYt, call_yt, call_yt_ok}
use principal.Sy
use principal.Sy.Soundness.{IsSound}
use principal.Yt
use principal.Manager.Access.{IsOpen}
use principal.Manager.Entry.{Joint, claim_yield, pay_claim}
use principal.Manager.Moving.{Moves, pay_any-Moves}
use principal.Manager.Redeeming.{Paid-par, pay_out_ok}

-- What is paid for a claim: all of it, if there is any.
abbrev pub payable : ℤ → ℤ
payable claimed = if ltb_ℤ (pos 0) claimed then claimed else pos 0

module _ (token : Token) where
  -- The index is brought up to date, and the token settles and clears the account's claim.
  pub record Claimed (views : Views) (env : Env) (from : ℕ) (claimed : ℤ) (j : Joint token)
      (w : World token) : Type 0 where
    pub open_to : IsOpen views env from (j.0)
    pub yt : ℕ
    pub has_yt : (j.0).yt_token ≡ some yt
    pub updated : World token
    pub index_current : CalledYt token yt (Yt.update_yield_index views) j.1 updated tt
    pub cleared :
        CalledYt token yt (Yt.claim_yield (called_by env yt) env.current from) updated w claimed

  module _ (views : Views) (env : Env) (from : ℕ) (j : Joint token) where
    abbrev yt_at : ℕ
    yt_at = unwrap_or ((j.0).yt_token) 0

    abbrev update : Result (Unit {0} × World token)
    update = call_yt token yt_at (Yt.update_yield_index views) j.1

    abbrev claim : Result (ℤ × World token)
    claim =
        call_yt token yt_at (Yt.claim_yield (called_by env yt_at) env.current from)
          (commit j.1 update)

    abbrev claim_of : ℤ
    claim_of = elim claim [ ok r ↦ r.0 | err _ ↦ pos 0 ]

    abbrev world_of : World token
    world_of = commit (commit j.1 update) claim

    claim_run :
        (paid : ℤ) (j' : Joint token)
        → claim_yield token views env from j ≡ ok (paid, j')
        → (update ≡ ok (tt, commit j.1 update))
          × (claim ≡ ok (claim_of, world_of))
          × ((j.0).yt_token ≡ some yt_at)
          × ((if ltb_ℤ (pos 0) claim_of
                  then pay_claim token views env from claim_of
                  else pure (pos 0))
                (j.0, world_of)
              ≡ ok (paid, j'))
    unfolding claim_yield
    claim_run paid j' h = (ground arith, ground arith, ground arith, ground arith)

    claim-IsOpen :
        (paid : ℤ) (j' : Joint token)
        → claim_yield token views env from j ≡ ok (paid, j')
        → IsOpen views env from (j.0)
    unfolding claim_yield
    claim-IsOpen paid j' h = record {
      oracle = unwrap_or ((j.0).oracle) 0;
      registry = unwrap_or ((j.0).permissioning) 0;
      asset = unwrap_or ((j.0).underlying) 0;
      signed = ground arith;
      running = ground arith;
      has_oracle = ground arith;
      fresh = ground arith;
      has_underlying = ground arith;
      on_sac = ground arith;
      has_permissioning = ground arith;
      permitted = ground arith;
    }

  paid_for :
      (views : Views) (env : Env) (from sy : ℕ) (claimed paid : ℤ) (s : Sy.State)
      (j j' : Joint token)
      → (j.0).sy_wrapper ≡ some sy
      → (j.1).sys sy ≡ some s
      → IsSound s
      → (if ltb_ℤ (pos 0) claimed then pay_claim token views env from claimed else pure (pos 0)) j
        ≡ ok (paid, j')
      → paid ≡ payable claimed
  unfolding pay_claim
  paid_for views env from sy (pos zero) paid s j j' hsy hs sound h = ground arith
  paid_for views env from sy (negsuc n) paid s j j' hsy hs sound h = ground arith
  paid_for views env from sy (pos (suc n)) paid s j j' hsy hs sound h =
      let e = pay_out_ok token views env sy from (pos (suc n)) paid j j' (ground arith) in
      Paid-par token views env sy from (suc n) paid s j j' hs sound e ∙ ground arith

  -- A payment touches neither the manager's storage nor a PT or a YT contract.
  pub record KeepsTokens (j j' : Joint token) : Type 0 where
    pub storage : j'.0 ≡ j.0
    pub pts : (j'.1).pts ≡ (j.1).pts
    pub yts : (j'.1).yts ≡ (j.1).yts

  paid-KeepsTokens :
      (views : Views) (env : Env) (from : ℕ) (claimed paid : ℤ) (j j' : Joint token)
      → (if ltb_ℤ (pos 0) claimed then pay_claim token views env from claimed else pure (pos 0)) j
        ≡ ok (paid, j')
      → KeepsTokens j j'
  unfolding pay_claim
  paid-KeepsTokens views env from (pos zero) paid j j' h = ground arith
  paid-KeepsTokens views env from (negsuc n) paid j j' h = ground arith
  paid-KeepsTokens views env from (pos (suc n)) paid j j' h =
      let p =
        pay_out_ok token views env (unwrap_or ((j.0).sy_wrapper) 0) from (pos (suc n)) paid j j'
          (ground arith) in
      record {
        storage = p.storage_kept;
        pts = ap (λ w. World.pts w) p.withdrawn.effects;
        yts = ap (λ w. World.yts w) p.withdrawn.effects;
      }

  -- The calls of a claim, whatever the wrapper's books.
  pub claim_yield_calls :
      (views : Views) (env : Env) (from : ℕ) (paid : ℤ) (j j' : Joint token)
      → claim_yield token views env from j ≡ ok (paid, j')
      → (claimed : ℤ) × (w : World token) × Claimed views env from claimed j w
        × KeepsTokens (j.0, w) j'
        × ((if ltb_ℤ (pos 0) claimed then pay_claim token views env from claimed else pure (pos 0))
              (j.0, w)
            ≡ ok (paid, j'))
  claim_yield_calls views env from paid j j' h =
      let (a, b, has, rest) = claim_run views env from j paid j' h in
      (
        claim_of views env from j,
        world_of views env from j,
        record {
          open_to = claim-IsOpen views env from j paid j' h;
          yt = _;
          has_yt = has;
          updated = _;
          index_current = call_yt_ok token _ _ a;
          cleared = call_yt_ok token _ _ b;
        },
        paid-KeepsTokens views env from (claim_of views env from j) paid
            (j.0, world_of views env from j) j' rest,
        rest,
      )

  paid_for-Moves :
      (views : Views) (env : Env) (from sy asset : ℕ) (claimed paid : ℤ) (s : Sy.State)
      (j j' : Joint token)
      → (j.0).sy_wrapper ≡ some sy
      → (j.1).sys sy ≡ some s
      → s.underlying ≡ some asset
      → (if ltb_ℤ (pos 0) claimed then pay_claim token views env from claimed else pure (pos 0)) j
        ≡ ok (paid, j')
      → Moves token asset sy from paid (j.1).ledger (j'.1).ledger
  unfolding pay_claim
  paid_for-Moves views env from sy asset claimed paid s j j' hsy hs hu h =
      pay_any-Moves token views env sy from asset claimed paid s j j' hs hu (ground arith)

  -- With a wrapper whose books are sound, a claim that succeeds was open to the account, at any
  -- time; it has brought the index up to date, then settled the account and cleared its claim, and
  -- pays exactly that claim, nothing if there is none, from the wrapper to the account.
  pub claim_yield_ok :
      (views : Views) (env : Env) (from sy asset : ℕ) (paid : ℤ) (s : Sy.State) (j j' : Joint token)
      → (j.0).sy_wrapper ≡ some sy
      → (j.1).sys sy ≡ some s
      → IsSound s
      → s.underlying ≡ some asset
      → claim_yield token views env from j ≡ ok (paid, j')
      → (claimed : ℤ) × (w : World token) × Claimed views env from claimed j w
        × (paid ≡ payable claimed)
        × Moves token asset sy from paid (j.1).ledger (j'.1).ledger
  claim_yield_ok views env from sy asset paid s j j' hsy hs sound hu h =
      let (claimed, w, c, _, rest) = claim_yield_calls views env from paid j j' h in
      let kept : w.ledger ≡ (j.1).ledger =
        ap (λ x. World.ledger x) c.cleared.effects
        ∙ ap (λ x. World.ledger x) c.index_current.effects in
      let at_sy : w.sys sy ≡ some s = rw (c.cleared.effects, c.index_current.effects) hs in
      let moves =
        paid_for-Moves views env from sy asset claimed paid s (j.0, w) j' hsy at_sy hu rest in
      (
        claimed,
        w,
        c,
        paid_for views env from sy claimed paid s (j.0, w) j' hsy at_sy sound rest,
        rw kept at moves,
      )
