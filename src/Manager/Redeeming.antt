-- ===== src/Manager/Redeeming.antt =====
-- What a successful `redeem` of PrincipalManager has checked, burned and paid.
use native.Mathlib.Nat.{mul-div_cancel}
use principal.Base.{refl, ap, ◌∙◌, ℕ, ◌≡◌, some, arith, unwrap_or}
use principal.Base.Int.{ℤ, pos}
use principal.Host.{value_or, Env, Views, ok, commit, called_by, mul_div, mul_div_ok}
use principal.Token.{Token}
use principal.World.{CalledSy, CalledPt, call_sy_ok, call_pt, call_pt_ok}
use principal.Sy
use principal.Sy.Soundness.{IsSound, IsSound-IsPar, withdraw-par}
use principal.Sy.Rate.{exchange_rate-par}
use principal.Sy.Custody.{withdraw_ok}
use principal.Pt
use principal.Manager.Store.{scale, underlying_to_shares}
use principal.Manager.Entry.{Joint, pay_out, redeem_pt}

module _ (token : Token) where
  -- The shares of the manager that a payment withdraws, at the wrapper's rate.
  pub record Paid (views : Views) (env : Env) (sy from : ℕ) (desired paid : ℤ) (j j' : Joint token)
      : Type 0 where
    pub wrapper : Sy.State
    pub at_address : (j.1).sys sy ≡ some wrapper
    pub rate : ℤ
    pub rated : Sy.exchange_rate wrapper ≡ ok rate
    pub shares : ℤ
    pub converted : mul_div desired scale rate ≡ ok shares
    pub withdrawn :
        CalledSy token sy
          (Sy.withdraw token views (called_by env sy) env.current shares from)
          j.1
          j'.1
          paid
    pub storage_kept : j'.0 ≡ j.0

  pub pay_out_ok :
      (views : Views) (env : Env) (sy from : ℕ) (desired paid : ℤ) (j j' : Joint token)
      → pay_out token views env sy from desired j ≡ ok (paid, j')
      → Paid views env sy from desired paid j j'
  unfolding pay_out underlying_to_shares
  pay_out_ok views env sy from desired paid j j' h =
      let wrapper = unwrap_or ((j.1).sys sy) Sy.empty in
      let rate = value_or (Sy.exchange_rate wrapper) (pos 0) in
      let shares = value_or (mul_div desired scale rate) (pos 0) in
      record {
        wrapper = wrapper;
        at_address = ground arith;
        rate = rate;
        rated = ground arith;
        shares = shares;
        converted = ground arith;
        withdrawn = call_sy_ok token _ _ (ground arith);
        storage_kept = ground arith;
      }

  -- From a wrapper whose books are sound, a payment pays what is desired.
  pub Paid-par :
      (views : Views) (env : Env) (sy from m : ℕ) (paid : ℤ) (s : Sy.State) (j j' : Joint token)
      → (j.1).sys sy ≡ some s
      → IsSound s
      → Paid views env sy from (pos m) paid j j'
      → paid ≡ pos m
  Paid-par views env sy from m paid s j j' hs sound p =
      let same : p.wrapper ≡ s = grind (arith, p.at_address) in
      let par : p.rate ≡ scale =
        exchange_rate-par s p.rate (IsSound-IsPar sound) (rw same at p.rated) in
      let shares : p.shares ≡ pos m =
        mul_div_ok m 10000000 9999999 (rw par at p.converted)
        ∙ ap pos (mul-div_cancel m {n = 10000000} (omega arith)) in
      let before : p.withdrawn.before ≡ s = grind (arith, p.withdrawn.at_address) in
      withdraw-par {s = s} sound
        (withdraw_ok token views (called_by env sy) env.current p.shares from paid (s, (j.1).ledger)
          _ (rw before at p.withdrawn.ran)).effects
      ∙ shares

  -- What redeeming PT has done: the account's PT are burned, and the payment follows.
  pub record PtRedeemed (views : Views) (env : Env) (sy from : ℕ) (pt_amount final_rate paid : ℤ)
      (j j' : Joint token) : Type 0 where
    pub pt : ℕ
    pub has_pt : (j.0).pt_token ≡ some pt
    pub burned : Joint token
    pub tokens_in : CalledPt token pt (Pt.burn (called_by env pt) from pt_amount) j.1 (burned.1) tt
    pub same_storage : burned.0 ≡ j.0
    pub desired : ℤ
    pub priced : mul_div pt_amount scale final_rate ≡ ok desired
    pub paid_out : Paid views env sy from desired paid burned j'

  pub redeem_pt_ok :
      (views : Views) (env : Env) (sy from : ℕ) (pt_amount final_rate paid : ℤ) (j j' : Joint token)
      → redeem_pt token views env sy from pt_amount final_rate j ≡ ok (paid, j')
      → PtRedeemed views env sy from pt_amount final_rate paid j j'
  unfolding redeem_pt
  redeem_pt_ok views env sy from pt_amount final_rate paid j j' h =
      let pt = unwrap_or ((j.0).pt_token) 0 in
      let world = commit j.1 (call_pt token pt (Pt.burn (called_by env pt) from pt_amount) j.1) in
      let desired = value_or (mul_div pt_amount scale final_rate) (pos 0) in
      record {
        pt = pt;
        has_pt = ground arith;
        burned = (j.0, world);
        tokens_in = call_pt_ok token _ _ (ground arith);
        same_storage = refl;
        desired = desired;
        priced = ground arith;
        paid_out = pay_out_ok views env sy from desired paid (j.0, world) j' (ground arith);
      }
