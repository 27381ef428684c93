-- ===== src/Sy/Soundness.antt =====
-- The books of SYWrapper: the two totals and the accounts' shares, under each entry point.
use principal.Base.{ℕ, ◌≡◌, ◌∙◌, none, some, Option, arith, sym}
use principal.Base.Int.{ℤ, pos, ◌≤ℤ◌, int_laws, pos_of_nonneg}
use principal.Base.Balances.{
  get_amount, get_amount-le-sum, sum, AllNonneg, move, sum-move, sum-put_on, sum-take_off,
  move-AllNonneg, put_on-AllNonneg, take_off-AllNonneg,
}
use principal.Host.{Env, Views, ok}
use principal.Sy.Store.{State, total_underlying, total_shares}
use principal.Sy.Entry.{initialize}
use principal.Sy.Rate.{IsPar, underlying_to_shares-par, shares_to_underlying-par}
use principal.Sy.Effects.{Deposited, Withdrawn}

-- Before `initialize` there is no asset and there are no shares.
abbrev pub Fresh : Option ℕ → Option ℕ → ℤ → Type 0
Fresh none none n = n ≡ pos 0
Fresh none (some _) n = ⊥
Fresh (some _) _ n = Unit

pub record IsSound (s : State) : Type 0 where
  pub equal : total_underlying s ≡ total_shares s
  pub total_nonneg : pos 0 ≤ℤ total_shares s
  pub summed : sum s.balances ≡ total_shares s
  pub nonneg : AllNonneg s.balances
  pub fresh : Fresh s.admin s.underlying (total_shares s)

pub IsSound-IsPar : {s : State} → IsSound s → IsPar s
IsSound-IsPar h = record { equal = h.equal; nonneg = h.total_nonneg }

-- Shares are minted one for one.
pub deposit-par :
    {views : Views} {env : Env} {from : ℕ} {amount : ℤ} {s s' : State} {out : ℕ × ℤ}
    → IsSound s
    → Deposited views env from amount s s' out
    → out.1 ≡ amount
deposit-par {amount = amount} {s} {out = out} h d =
    let (n, e) = pos_of_nonneg amount (omega (arith, d.positive)) in
    underlying_to_shares-par n s out.1 (IsSound-IsPar h) (rw e at d.computed) ∙ sym e

-- Shares are redeemed one for one.
pub withdraw-par :
    {views : Views} {env : Env} {from to : ℕ} {shares : ℤ} {s s' : State} {out : ℕ × ℤ}
    → IsSound s
    → Withdrawn views env from to shares s s' out
    → out.1 ≡ shares
withdraw-par {shares = shares} {s} {out = out} h d =
    let (n, e) = pos_of_nonneg shares (omega (arith, d.positive)) in
    shares_to_underlying-par n s out.1 (IsSound-IsPar h) (rw e at d.computed) ∙ sym e

pub moved-IsSound :
    (from to : ℕ) (amount : ℤ) {s s' : State}
    → IsSound s
    → pos 1 ≤ℤ amount
    → amount ≤ℤ get_amount s.balances from
    → s' ≡ record s { balances = move s.balances from to amount }
    → IsSound s'
unfolding total_underlying total_shares
moved-IsSound from to amount {s} h positive covered moved = rw moved (record {
  equal = h.equal;
  total_nonneg = h.total_nonneg;
  summed = sum-move s.balances from to amount ∙ h.summed;
  nonneg = move-AllNonneg s.balances from to amount (omega (arith, positive)) covered h.nonneg;
  fresh = h.fresh;
})

-- An account with an asset has an admin.
fresh_of_asset :
    (admin underlying : Option ℕ) (asset : ℕ) (n m : ℤ)
    → underlying ≡ some asset
    → Fresh admin underlying n
    → Fresh admin underlying m
fresh_of_asset none none asset n m e h = cc
fresh_of_asset none (some b) asset n m e h = h
fresh_of_asset (some a) underlying asset n m e h = tt

pub Deposited-IsSound :
    {views : Views} {env : Env} {from : ℕ} {amount : ℤ} {s s' : State} {out : ℕ × ℤ}
    → IsSound s
    → Deposited views env from amount s s' out
    → IsSound s'
unfolding total_underlying total_shares
Deposited-IsSound {from = from} {amount} {s} {out = out} h d =
    let par : out.1 ≡ amount = deposit-par h d in
    rw d.effects (record {
      equal = grind (arith, h.equal, par);
      total_nonneg = grind (int_laws, h.total_nonneg, d.shares);
      summed = grind (int_laws, h.summed, sum-put_on s.balances from out.1);
      nonneg = put_on-AllNonneg s.balances from out.1 (omega (arith, d.shares)) h.nonneg;
      fresh = fresh_of_asset s.admin s.underlying out.0 _ _ d.asset h.fresh;
    })

pub Withdrawn-IsSound :
    {views : Views} {env : Env} {from to : ℕ} {shares : ℤ} {s s' : State} {out : ℕ × ℤ}
    → IsSound s
    → Withdrawn views env from to shares s s' out
    → IsSound s'
unfolding total_underlying total_shares
Withdrawn-IsSound {from = from} {shares = shares} {s} {out = out} h d =
    let par : out.1 ≡ shares = withdraw-par h d in
    rw d.effects (record {
      equal = grind (arith, h.equal, par);
      total_nonneg =
          grind (int_laws, h.summed, d.covered, get_amount-le-sum s.balances from h.nonneg);
      summed = grind (int_laws, h.summed, sum-take_off s.balances from shares);
      nonneg = take_off-AllNonneg s.balances from shares d.covered h.nonneg;
      fresh = fresh_of_asset s.admin s.underlying out.0 _ _ d.asset h.fresh;
    })

pub initialize-IsSound :
    (views : Views) (env : Env) (admin underlying permissioning : ℕ) (s s' : State)
    → IsSound s
    → initialize views env admin underlying permissioning s ≡ ok (tt, s')
    → IsSound s'
unfolding initialize total_underlying total_shares
initialize-IsSound views env admin underlying permissioning s s' h e =
    ground (arith, h.equal, h.total_nonneg, h.summed, h.nonneg, h.fresh)
