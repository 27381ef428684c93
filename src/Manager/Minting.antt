-- ===== src/Manager/Minting.antt =====
-- What a successful `mint` of PrincipalManager has checked, and which calls it has made.
use principal.Base.{refl, ℕ, ◌≡◌, ◌<◌, some, arith, unwrap_or}
use principal.Base.Int.{ℤ, pos, ◌≤ℤ◌}
use principal.Host.{value_or, commit, Env, Views, Result, ok, err, called_by, mul_div}
use principal.Token.{Token}
use principal.World.{
  call_pt, call_yt, call_sy, World, CalledSy, CalledPt, CalledYt, call_sy_ok, call_pt_ok,
  call_yt_ok,
}
use principal.Sy
use principal.Pt
use principal.Yt
use principal.Manager.Access.{IsOpen}
use principal.Manager.Store.{State, MintResult, scale, u64_max}
use principal.Manager.Entry.{Joint, sy_only, mint, mint_calls}

module _ (token : Token) where
  -- The calls: shares to the manager, the index brought up to date, then PT and YT to the account.
  pub record MintCalled (views : Views) (env : Env) (from : ℕ) (sy_shares notional : ℤ)
      (j j' : Joint token) : Type 0 where
    pub sy : ℕ
    pub pt : ℕ
    pub yt : ℕ
    pub has_sy : (j.0).sy_wrapper ≡ some sy
    pub has_pt : (j.0).pt_token ≡ some pt
    pub has_yt : (j.0).yt_token ≡ some yt
    pub taken : World token
    pub updated : World token
    pub issued : World token
    pub returned : ℤ
    pub shares_in :
        CalledSy token sy
          (sy_only token (Sy.transfer views (called_by env sy) from env.current sy_shares))
          j.1
          taken
          returned
    pub index_current : CalledYt token yt (Yt.update_yield_index views) taken updated tt
    pub pt_out :
        CalledPt token pt (Pt.mint views (called_by env pt) from notional) updated issued tt
    pub yt_out : CalledYt token yt (Yt.mint views (called_by env yt) from notional) issued j'.1 tt

  pub record MintRan (views : Views) (env : Env) (from : ℕ) (sy_shares : ℤ) (result : MintResult)
      (j j' : Joint token) : Type 0 where
    pub open_to : IsOpen views env from (j.0)
    pub before_maturity : env.timestamp < unwrap_or ((j.0).maturity) u64_max
    pub positive : pos 1 ≤ℤ sy_shares
    pub rate : ℤ
    pub quoted : views.get_reference_value (unwrap_or ((j.0).oracle) 0) ≡ ok rate
    pub priced : mul_div sy_shares rate scale ≡ ok (result.pt_minted)
    pub equal_parts : result.yt_minted ≡ result.pt_minted
    pub calls : MintCalled views env from sy_shares (result.pt_minted) j j'
    pub storage_kept : j'.0 ≡ j.0

  mint_checked :
      (views : Views) (env : Env) (from : ℕ) (sy_shares : ℤ) (result : MintResult)
      (j j' : Joint token)
      → mint token views env from sy_shares j ≡ ok (result, j')
      → IsOpen views env from (j.0)
  unfolding mint
  mint_checked views env from sy_shares result j j' h = record {
    oracle = unwrap_or ((j.0).oracle) 0;
    registry = unwrap_or ((j.0).permissioning) 0;
    asset = unwrap_or ((j.0).underlying) 0;
    signed = ground arith;
    running = ground arith;
    has_oracle = ground arith;
    fresh = ground arith;
    has_underlying = ground arith;
    on_sac = ground arith;
    has_permissioning = ground arith;
    permitted = ground arith;
  }

  -- The rate and the notional that `mint` has used.
  abbrev rate_of : Views → State → ℤ
  rate_of views s = value_or (views.get_reference_value (unwrap_or (s.oracle) 0)) (pos 0)

  abbrev notional_of : Views → ℤ → State → ℤ
  notional_of views sy_shares s = value_or (mul_div sy_shares (rate_of views s) scale) (pos 0)

  mint_rest :
      (views : Views) (env : Env) (from : ℕ) (sy_shares : ℤ) (result : MintResult)
      (j j' : Joint token)
      → mint token views env from sy_shares j ≡ ok (result, j')
      → (env.timestamp < unwrap_or ((j.0).maturity) u64_max)
        × (pos 1 ≤ℤ sy_shares)
        × (views.get_reference_value (unwrap_or ((j.0).oracle) 0) ≡ ok (rate_of views (j.0)))
        × (mul_div sy_shares (rate_of views (j.0)) scale ≡ ok (notional_of views sy_shares (j.0)))
        × (mint_calls token views env from sy_shares (notional_of views sy_shares (j.0)) j
            ≡ ok (result, j'))
  unfolding mint
  mint_rest views env from sy_shares result j j' h =
      (ground arith, ground arith, ground arith, ground arith, ground arith)

  -- The worlds after the calls of `mint`, one after another.
  module _ (views : Views) (env : Env) (from : ℕ) (sy_shares notional : ℤ) (j : Joint token) where
    abbrev sy_at : ℕ
    sy_at = unwrap_or ((j.0).sy_wrapper) 0

    abbrev pt_at : ℕ
    pt_at = unwrap_or ((j.0).pt_token) 0

    abbrev yt_at : ℕ
    yt_at = unwrap_or ((j.0).yt_token) 0

    abbrev take : Result (ℤ × World token)
    take =
        call_sy token sy_at
          (sy_only token (Sy.transfer views (called_by env sy_at) from env.current sy_shares)) j.1

    abbrev update : Result (Unit {0} × World token)
    update = call_yt token yt_at (Yt.update_yield_index views) (commit j.1 take)

    abbrev issue_pt : Result (Unit {0} × World token)
    issue_pt =
        call_pt token pt_at (Pt.mint views (called_by env pt_at) from notional)
          (commit (commit j.1 take) update)

    abbrev issue_yt : Result (Unit {0} × World token)
    issue_yt =
        call_yt token yt_at (Yt.mint views (called_by env yt_at) from notional)
          (commit (commit (commit j.1 take) update) issue_pt)

    abbrev value_of_take : ℤ
    value_of_take = elim take [ ok r ↦ r.0 | err _ ↦ pos 0 ]

    mint_calls_run :
        (result : MintResult) (j' : Joint token)
        → mint_calls token views env from sy_shares notional j ≡ ok (result, j')
        → (take ≡ ok (value_of_take, commit j.1 take))
          × (update ≡ ok (tt, commit (commit j.1 take) update))
          × (issue_pt ≡ ok (tt, commit (commit (commit j.1 take) update) issue_pt))
          × (issue_yt ≡ ok (tt, j'.1))
          × (result ≡ record { pt_minted = notional; yt_minted = notional })
          × (j'.0 ≡ j.0)
          × ((j.0).sy_wrapper ≡ some sy_at)
          × ((j.0).pt_token ≡ some pt_at)
          × ((j.0).yt_token ≡ some yt_at)
    unfolding mint_calls
    mint_calls_run result j' h = (
      ground arith,
      ground arith,
      ground arith,
      ground arith,
      ground arith,
      ground arith,
      ground arith,
      ground arith,
      ground arith,
    )

  mint_calls_ok :
      (views : Views) (env : Env) (from : ℕ) (sy_shares notional : ℤ) (result : MintResult)
      (j j' : Joint token)
      → mint_calls token views env from sy_shares notional j ≡ ok (result, j')
      → MintCalled views env from sy_shares notional j j'
  mint_calls_ok views env from sy_shares notional result j j' h =
      let (a, b, c, d, _, _, has_sy, has_pt, has_yt) =
        mint_calls_run views env from sy_shares notional j result j' h in
      record {
        sy = unwrap_or ((j.0).sy_wrapper) 0;
        pt = unwrap_or ((j.0).pt_token) 0;
        yt = unwrap_or ((j.0).yt_token) 0;
        has_sy = has_sy;
        has_pt = has_pt;
        has_yt = has_yt;
        taken = _;
        updated = _;
        issued = _;
        returned = _;
        shares_in = call_sy_ok token _ _ a;
        index_current = call_yt_ok token _ _ b;
        pt_out = call_pt_ok token _ _ c;
        yt_out = call_yt_ok token _ _ d;
      }

  pub mint_ok :
      (views : Views) (env : Env) (from : ℕ) (sy_shares : ℤ) (result : MintResult)
      (j j' : Joint token)
      → mint token views env from sy_shares j ≡ ok (result, j')
      → MintRan views env from sy_shares result j j'
  mint_ok views env from sy_shares result j j' h =
      let (early, positive, quoted, priced, calls) =
        mint_rest views env from sy_shares result j j' h in
      let notional = notional_of views sy_shares (j.0) in
      let (_, _, _, _, e, kept, _, _, _) =
        mint_calls_run views env from sy_shares notional j result j' calls in
      record {
        open_to = mint_checked views env from sy_shares result j j' h;
        before_maturity = early;
        positive = positive;
        rate = rate_of views (j.0);
        quoted = quoted;
        priced = rw e priced;
        equal_parts = rw e refl;
        calls = rw e (mint_calls_ok views env from sy_shares notional result j j' calls);
        storage_kept = kept;
      }
