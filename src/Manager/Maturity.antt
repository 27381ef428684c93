-- ===== src/Manager/Maturity.antt =====
-- Redemption as a whole: its checks, its two legs, and what it pays for PT.
use native.Mathlib.Nat.{zero-mul, zero-div}
use principal.Base.{
  ℕ, zero, suc, ◌*◌, ◌/◌, ◌≡◌, ◌≤◌, ◌&&◌, false, some, arith, unwrap_or, if◌then◌else◌,
}
use principal.Base.Int.{ℤ, pos, ltb_ℤ, is_zero}
use principal.Host.{value_or, M, Env, Views, ok, pure, commit, mul_div_ok}
use principal.Token.{Token}
use principal.Sy
use principal.Sy.Soundness.{IsSound}
use principal.Manager.Access.{IsOpen}
use principal.Manager.Store.{RedeemResult, u64_max}
use principal.Manager.Entry.{Joint, redeem, redeem_pt, redeem_yt}
use principal.Manager.Redeeming.{Paid-par, redeem_pt_ok}

module _ (token : Token) where
  module _ (views : Views) (env : Env) (sy from : ℕ) where
    abbrev pub pt_leg : ℤ → ℤ → M (Joint token) ℤ
    pt_leg amount rate =
        if ltb_ℤ (pos 0) amount then redeem_pt token views env sy from amount rate else pure (pos 0)

    abbrev pub yt_leg : ℤ → M (Joint token) ℤ
    yt_leg amount =
        if ltb_ℤ (pos 0) amount then redeem_yt token views env sy from amount else pure (pos 0)

  pub record Redeemed (views : Views) (env : Env) (from : ℕ) (pt_amount yt_amount : ℤ)
      (result : RedeemResult) (j j' : Joint token) : Type 0 where
    pub open_to : IsOpen views env from (j.0)
    pub matured : unwrap_or ((j.0).maturity) u64_max ≤ env.timestamp
    pub some_amount : (is_zero pt_amount && is_zero yt_amount) ≡ false
    pub sy : ℕ
    pub has_sy : (j.0).sy_wrapper ≡ some sy
    pub final_rate : ℤ
    pub quoted : views.get_reference_value (unwrap_or ((j.0).oracle) 0) ≡ ok final_rate
    pub middle : Joint token
    pub first :
        pt_leg views env sy from pt_amount final_rate j ≡ ok (result.underlying_from_pt, middle)
    pub second : yt_leg views env sy from yt_amount middle ≡ ok (result.underlying_from_yt, j')

  pub redeem_ok :
      (views : Views) (env : Env) (from : ℕ) (pt_amount yt_amount : ℤ) (result : RedeemResult)
      (j j' : Joint token)
      → redeem token views env from pt_amount yt_amount j ≡ ok (result, j')
      → Redeemed views env from pt_amount yt_amount result j j'
  unfolding redeem
  redeem_ok views env from pt_amount yt_amount result j j' h =
      let rate = value_or (views.get_reference_value (unwrap_or ((j.0).oracle) 0)) (pos 0) in
      let sy = unwrap_or ((j.0).sy_wrapper) 0 in
      record {
        open_to = record {
          oracle = unwrap_or ((j.0).oracle) 0;
          registry = unwrap_or ((j.0).permissioning) 0;
          asset = unwrap_or ((j.0).underlying) 0;
          signed = ground arith;
          running = ground arith;
          has_oracle = ground arith;
          fresh = ground arith;
          has_underlying = ground arith;
          on_sac = ground arith;
          has_permissioning = ground arith;
          permitted = ground arith;
        };
        matured = ground arith;
        some_amount = ground arith;
        sy = sy;
        has_sy = ground arith;
        final_rate = rate;
        quoted = ground arith;
        middle = commit j (pt_leg views env sy from pt_amount rate j);
        first = ground arith;
        second = ground arith;
      }

  leg-floor :
      (views : Views) (env : Env) (sy from m r : ℕ) (paid : ℤ) (s : Sy.State) (j j' : Joint token)
      → (j.1).sys sy ≡ some s
      → IsSound s
      → pt_leg views env sy from (pos m) (pos (suc r)) j ≡ ok (paid, j')
      → paid ≡ pos (m * 10000000 / suc r)
  leg-floor views env sy from zero r paid s j j' hs sound h =
      rw (zero-mul 10000000, zero-div (suc r)) (ground arith)
  leg-floor views env sy from (suc m) r paid s j j' hs sound h =
      let p =
        redeem_pt_ok token views env sy from (pos (suc m)) (pos (suc r)) paid j j' (ground arith) in
      let e = mul_div_ok (suc m) 10000000 r p.priced in
      Paid-par token views env sy from (suc m * 10000000 / suc r) paid s p.burned j'
        (rw p.tokens_in.effects hs) sound (rw e at p.paid_out)

  -- With a wrapper whose books are sound and an oracle rate R, a redemption of m PT that succeeds,
  -- whatever YT it redeems too, was open to the account at or after maturity and pays for the PT
  -- exactly m times the scale divided by R, rounded down.
  pub redeem-pt_floor :
      (views : Views) (env : Env) (from m r sy : ℕ) (yt_amount : ℤ) (result : RedeemResult)
      (s : Sy.State) (j j' : Joint token)
      → (j.0).sy_wrapper ≡ some sy
      → (j.1).sys sy ≡ some s
      → IsSound s
      → views.get_reference_value (unwrap_or ((j.0).oracle) 0) ≡ ok (pos (suc r))
      → redeem token views env from (pos m) yt_amount j ≡ ok (result, j')
      → IsOpen views env from (j.0)
        × (unwrap_or ((j.0).maturity) u64_max ≤ env.timestamp)
        × (result.underlying_from_pt ≡ pos (m * 10000000 / suc r))
  redeem-pt_floor views env from m r sy yt_amount result s j j' hsy hs sound hr h =
      let p = redeem_ok views env from (pos m) yt_amount result j j' h in
      let same : p.sy ≡ sy = grind (arith, p.has_sy) in
      let rate : p.final_rate ≡ pos (suc r) = grind (arith, p.quoted) in
      (
        p.open_to,
        p.matured,
        leg-floor views env sy from m r _ s j p.middle hs sound (rw (same, rate) at p.first),
      )
