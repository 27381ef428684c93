-- ===== src/Manager/Paying.antt =====
-- When a redemption of PT returns: the conditions under which no guard and no arithmetic stops it.
use native.Mathlib.Nat.{mul-div_cancel}
use principal.Base.{
  true, ℕ, refl, ap, suc, ◌∙◌, ◌*◌, ◌/◌, ◌<◌, ◌≤◌, ◌^◌, ◌≡◌, some, none, arith, put,
}
use principal.Base.Int.{ℤ, pos, ◌-ℤ◌}
use principal.Base.Balances.{get_amount, take_off}
use principal.Host.{Env, Views, ok, called_by, mul_div, mul_div_fits, is_authorized}
use principal.Token.{Token}
use principal.World.{World}
use principal.Sy
use principal.Sy.Rate.{exchange_rate-fits}
use principal.Sy.Soundness.{IsSound-IsPar}
use principal.Sy.Redemption.{CanWithdraw, withdrawn, withdraw_runs, held-le-total, difference_fits}
use principal.Pt
use principal.Manager.Store.{scale, underlying_to_shares}
use principal.Manager.Maturity.{pt_leg, yt_leg}
use principal.Manager.Refusals.{Answers, redeem_guards, first}
use principal.Manager.Entry.{Joint, pay_out, redeem_pt, redeem}

-- A PT contract that burns for its minter `m + 1` of the `b` tokens of an account, out of `t`.
pub record CanBurn (minter from m b t : ℕ) (p : Pt.State) : Type 0 where
  pub has_minter : p.minter ≡ some minter
  pub held : get_amount p.balances from ≡ pos b
  pub enough : suc m ≤ b
  pub total : Pt.total_supply p ≡ pos t
  pub part : b ≤ t
  pub fits : t < 2 ^ 127

abbrev pub burned : ℕ → ℕ → Pt.State → Pt.State
burned from m p = record p {
  balances = take_off p.balances from (pos (suc m));
  total_supply = some (Pt.total_supply p -ℤ pos (suc m));
}

burn_runs :
    (env : Env) (minter from m b t : ℕ) (p : Pt.State)
    → is_authorized env minter ≡ true
    → CanBurn minter from m b t p
    → Pt.burn env from (pos (suc m)) p ≡ ok (tt, burned from m p)
unfolding Pt.burn Pt.total_supply
burn_runs env minter from m b t p signed c =
    let fb = difference_fits b (suc m) c.held c.enough (omega (arith, c.part, c.fits)) in
    let ft = difference_fits t (suc m) c.total (omega (arith, c.enough, c.part)) c.fits in
    ground (arith, c.has_minter, c.held, c.enough, fb, ft)

module _ (token : Token) where
  open token use {Ledger}

  -- The asset's contract pays `k + 1` units out of the wrapper of address `sy`.
  abbrev pub Pays : Env → (sy asset to k : ℕ) → Ledger → Ledger → Type 0
  Pays env sy asset to k l l' =
      token.transfer asset (called_by (called_by env sy) asset) sy to (pos (suc k)) l ≡ ok l'

  -- The world after such a payment.
  abbrev pub paid_world : World token → (sy : ℕ) → Sy.State → Ledger → World token
  paid_world w sy s l = record w { sys = put w.sys sy s; ledger = l }

  pay_out_runs :
      (views : Views) (env : Env) (sy from k n b : ℕ) (s : Sy.State) (j : Joint token) (l' : Ledger)
      → (j.1).sys sy ≡ some s
      → (c : CanWithdraw views (called_by env sy) env.current from k n b s)
      → Pays env sy c.from_cleared.asset from k (j.1).ledger l'
      → pay_out token views env sy from (pos (suc k)) j
        ≡ ok (pos (suc k), (j.0, paid_world j.1 sy (withdrawn env.current k s) l'))
  unfolding pay_out underlying_to_shares
  pay_out_runs views env sy from k n b s j l' hs c paid =
      let rate = exchange_rate-fits n s (IsSound-IsPar c.sound) c.total c.fits in
      let shares : mul_div (pos (suc k)) scale scale ≡ ok (pos (suc k)) =
        mul_div_fits (suc k) 10000000 9999999 (
          omega (
            arith,
            held-le-total views (called_by env sy) env.current from k n b s c,
            c.enough,
            c.fits,
          ))
        ∙ ap (λ r. ok (pos r)) (mul-div_cancel (suc k) {n = 10000000} (omega arith)) in
      let w =
        withdraw_runs token views (called_by env sy) env.current from k n b s (j.1).ledger l' c
          paid in
      ground (arith, hs, rate, shares, w)

  -- A market in which the account may redeem `m + 1` PT, at the rate `r + 1`, for `k + 1` units.
  pub record CanRedeem (views : Views) (env : Env) (from m r k : ℕ) (j : Joint token) (l' : Ledger)
      : Type 0 where
    pub answers : Answers views from (j.0)
    pub open_now : first (redeem_guards views env from (j.0) answers (pos (suc m)) (pos 0)) ≡ none
    pub quoted : views.get_reference_value answers.oracle ≡ ok (pos (suc r))
    pub priced : suc m * 10000000 / suc r ≡ suc k
    pub fits : suc m * 10000000 < 2 ^ 127
    pub sy : ℕ
    pub pt : ℕ
    pub wrapper : Sy.State
    pub principal_token : Pt.State
    pub shares : ℕ
    pub manager_shares : ℕ
    pub held : ℕ
    pub supply : ℕ
    pub has_sy : (j.0).sy_wrapper ≡ some sy
    pub has_pt : (j.0).pt_token ≡ some pt
    pub sy_at : (j.1).sys sy ≡ some wrapper
    pub pt_at : (j.1).pts pt ≡ some principal_token
    pub can_burn : CanBurn env.current from m held supply principal_token
    pub can_withdraw :
        CanWithdraw views (called_by env sy) env.current from k shares manager_shares wrapper
    pub pays : Pays env sy can_withdraw.from_cleared.asset from k (j.1).ledger l'

  -- What such a redemption leaves.
  abbrev pub redeemed_world :
      (views : Views) (env : Env) (from m r k : ℕ) (j : Joint token) (l' : Ledger)
      → CanRedeem views env from m r k j l'
      → World token
  redeemed_world views env from m r k j l' c =
      paid_world (record (j.1) { pts = put (j.1).pts c.pt (burned from m c.principal_token) }) c.sy
        (withdrawn env.current k c.wrapper) l'

  redeem_pt_runs :
      (views : Views) (env : Env) (from m r k : ℕ) (j : Joint token) (l' : Ledger)
      → (c : CanRedeem views env from m r k j l')
      → redeem_pt token views env c.sy from (pos (suc m)) (pos (suc r)) j
        ≡ ok (pos (suc k), (j.0, redeemed_world views env from m r k j l' c))
  unfolding redeem_pt
  redeem_pt_runs views env from m r k j l' c =
      let burns =
        burn_runs (called_by env c.pt) env.current from m c.held c.supply c.principal_token
          (ground arith) c.can_burn in
      let price : mul_div (pos (suc m)) scale (pos (suc r)) ≡ ok (pos (suc k)) =
        mul_div_fits (suc m) 10000000 r c.fits ∙ ap (λ x. ok (pos x)) c.priced in
      let pays =
        pay_out_runs views env c.sy from k c.shares c.manager_shares c.wrapper
          (j.0, record (j.1) { pts = put (j.1).pts c.pt (burned from m c.principal_token) }) l'
          c.sy_at c.can_withdraw c.pays in
      ground (arith, c.has_pt, c.pt_at, burns, price, pays)

  -- Past its guards a redemption is its two legs.
  past_guards :
      (views : Views) (env : Env) (from sy : ℕ) (pt yt rate x y : ℤ) (j mid j' : Joint token)
      → (a : Answers views from (j.0)) → first (redeem_guards views env from (j.0) a pt yt) ≡ none
      → views.get_reference_value a.oracle ≡ ok rate
      → (j.0).sy_wrapper ≡ some sy
      → pt_leg token views env sy from pt rate j ≡ ok (x, mid)
      → yt_leg token views env sy from yt mid ≡ ok (y, j')
      → redeem token views env from pt yt j
        ≡ ok (record { underlying_from_pt = x; underlying_from_yt = y }, j')
  unfolding redeem
  past_guards views env from sy pt yt rate x y j mid j' a open_now quoted has_sy first_leg
        last_leg =
      ground (
        arith, a.has_oracle, a.has_permissioning, a.has_underlying, a.has_maturity, a.says_fresh,
        a.says_on_sac, a.says_permitted,
      )

  -- A holder of PT is paid: when no guard of the manager strikes, the oracle quotes R, the account
  -- holds the m PT (m positive, its scaled amount fits an i128, and m times the scale divided by R is
  -- not 0), the manager may withdraw as many shares from a wrapper with sound books, and the asset pays
  -- out, the redemption succeeds: it burns the PT and pays m times the scale divided by R, rounded down.
  pub redeem_runs :
      (views : Views) (env : Env) (from m r k : ℕ) (j : Joint token) (l' : Ledger)
      → (c : CanRedeem views env from m r k j l')
      → redeem token views env from (pos (suc m)) (pos 0) j
        ≡ ok (
          record { underlying_from_pt = pos (suc k); underlying_from_yt = pos 0 },
          (j.0, redeemed_world views env from m r k j l' c),
        )
  redeem_runs views env from m r k j l' c =
      let after : Joint token = (j.0, redeemed_world views env from m r k j l' c) in
      let run = redeem_pt_runs views env from m r k j l' c in
      past_guards views env from c.sy (pos (suc m)) (pos 0) (pos (suc r)) (pos (suc k)) (pos 0) j
        after after c.answers c.open_now c.quoted c.has_sy (ground (arith, run)) refl
