-- ===== src/Escrow/Positions.antt =====
-- What a successful seizure of PT or YT through RecoveryEscrow has moved.
use principal.Base.{◌∙◌, Option, ap, ℕ, ◌≡◌, some, arith, unwrap_or, put}
use principal.Base.Int.{ℤ}
use principal.Host.{Env, Views, ok, called_by}
use principal.Token.{Token}
use principal.World.{call_yt, call_pt, World, CalledPt, CalledYt, call_pt_ok, call_yt_ok}
use principal.Pt
use principal.Pt.Effects
use principal.Pt.Issue
use principal.Yt
use principal.Yt.Effects as YtEffects
use principal.Yt.Issue as YtIssue
use principal.Escrow.Entry.{Joint, seize_pt, seize_yt}
use principal.Escrow.Seizing.{IsOrdered}

put_same : {A : Type 0} (f : ℕ → Option A) (k : ℕ) (v : A) → put f k v k ≡ some v
put_same f k v = ground arith

module _ (token : Token) where
  -- The call of the PTToken that the escrow makes, and what it moves there.
  pub record PtSeized (env : Env) (account : ℕ) (amount : ℤ) (j j' : Joint token) : Type 0 where
    pub pt : ℕ
    pub has_pt : (j.0).pt_token ≡ some pt
    pub before : Pt.State
    pub after : Pt.State
    pub stood : ((j.1).1).pts pt ≡ some before
    pub stands : ((j'.1).1).pts pt ≡ some after
    pub moved : Effects.Moved account env.current amount before after

  seize_pt_called :
      (views : Views) (env : Env) (caller account : ℕ) (amount seized : ℤ) (j j' : Joint token)
      → seize_pt token views env caller account amount j ≡ ok (seized, j')
      → let pt = unwrap_or ((j.0).pt_token) 0 in
        IsOrdered views env caller account (j.0)
        × ((j.0).pt_token ≡ some pt)
        × (call_pt token pt (Pt.seize (called_by env pt) env.current account amount) ((j.1).1)
            ≡ ok (seized, (j'.1).1))
  unfolding seize_pt
  seize_pt_called views env caller account amount seized j j' h = (
    record {
      asset = unwrap_or ((j.0).underlying) 0;
      has_asset = ground arith;
      signed = ground arith;
      by_issuer = ground arith;
      deauthorized = ground arith;
    },
    ground arith,
    ground arith,
  )

  pt_moved :
      {P : Type 0} (env : Env) (account : ℕ) (amount seized : ℤ) (j j' : Joint token) (pt : ℕ)
      → P
      → (j.0).pt_token ≡ some pt
      → CalledPt token pt
          (Pt.seize (called_by env pt) env.current account amount)
          ((j.1).1)
          ((j'.1).1)
          seized
      → P × (seized ≡ amount) × PtSeized env account amount j j'
  pt_moved env account amount seized j j' pt p has c =
      let (_, _, moved, _, same) =
        Issue.seize_ok (called_by env pt) c.before c.after env.current account amount seized
          c.ran in
      (
        p,
        same,
        record {
          pt = pt;
          has_pt = has;
          before = c.before;
          after = c.after;
          stood = c.at_address;
          stands = ap (λ w. World.pts w pt) c.effects ∙ put_same ((j.1).1).pts pt c.after;
          moved = moved;
        },
      )

  -- A seizure of PT through the escrow that succeeds was signed by the issuer against an account
  -- that the asset has deauthorized, and moves the amount from the account to the escrow.
  pub seize_pt_ok :
      (views : Views) (env : Env) (caller account : ℕ) (amount seized : ℤ) (j j' : Joint token)
      → seize_pt token views env caller account amount j ≡ ok (seized, j')
      → IsOrdered views env caller account (j.0)
        × (seized ≡ amount)
        × PtSeized env account amount j j'
  seize_pt_ok views env caller account amount seized j j' h =
      let (ordered, has, e) = seize_pt_called views env caller account amount seized j j' h in
      pt_moved env account amount seized j j' _ ordered has (call_pt_ok token _ _ e)

  -- The same of the YTToken, which settles both accounts first.
  pub record YtSeized (env : Env) (account : ℕ) (amount : ℤ) (j j' : Joint token) : Type 0 where
    pub yt : ℕ
    pub has_yt : (j.0).yt_token ≡ some yt
    pub before : Yt.State
    pub after : Yt.State
    pub stood : ((j.1).1).yts yt ≡ some before
    pub stands : ((j'.1).1).yts yt ≡ some after
    pub moved : YtEffects.Moved account env.current amount before after

  seize_yt_called :
      (views : Views) (env : Env) (caller account : ℕ) (amount seized : ℤ) (j j' : Joint token)
      → seize_yt token views env caller account amount j ≡ ok (seized, j')
      → let yt = unwrap_or ((j.0).yt_token) 0 in
        IsOrdered views env caller account (j.0)
        × ((j.0).yt_token ≡ some yt)
        × (call_yt token yt (Yt.seize (called_by env yt) env.current account amount) ((j.1).1)
            ≡ ok (seized, (j'.1).1))
  unfolding seize_yt
  seize_yt_called views env caller account amount seized j j' h = (
    record {
      asset = unwrap_or ((j.0).underlying) 0;
      has_asset = ground arith;
      signed = ground arith;
      by_issuer = ground arith;
      deauthorized = ground arith;
    },
    ground arith,
    ground arith,
  )

  yt_moved :
      {P : Type 0} (env : Env) (account : ℕ) (amount seized : ℤ) (j j' : Joint token) (yt : ℕ)
      → P
      → (j.0).yt_token ≡ some yt
      → CalledYt token yt
          (Yt.seize (called_by env yt) env.current account amount)
          ((j.1).1)
          ((j'.1).1)
          seized
      → P × (seized ≡ amount) × YtSeized env account amount j j'
  yt_moved env account amount seized j j' yt p has c =
      let (_, _, moved, _, same) =
        YtIssue.seize_ok (called_by env yt) c.before c.after env.current account amount seized
          c.ran in
      (
        p,
        same,
        record {
          yt = yt;
          has_yt = has;
          before = c.before;
          after = c.after;
          stood = c.at_address;
          stands = ap (λ w. World.yts w yt) c.effects ∙ put_same ((j.1).1).yts yt c.after;
          moved = moved;
        },
      )

  -- A seizure of YT through the escrow that succeeds was signed by the issuer against an account
  -- that the asset has deauthorized; it settles the account and the escrow and then moves the
  -- amount from the one to the other.
  pub seize_yt_ok :
      (views : Views) (env : Env) (caller account : ℕ) (amount seized : ℤ) (j j' : Joint token)
      → seize_yt token views env caller account amount j ≡ ok (seized, j')
      → IsOrdered views env caller account (j.0)
        × (seized ≡ amount)
        × YtSeized env account amount j j'
  seize_yt_ok views env caller account amount seized j j' h =
      let (ordered, has, e) = seize_yt_called views env caller account amount seized j j' h in
      yt_moved env account amount seized j j' _ ordered has (call_yt_ok token _ _ e)
