-- ===== src/Tests/YieldRuns.antt =====
-- Runs of PrincipalManager: yield, refusals, prices, and the wiring of a market.
use principal.Base.{ℕ, ◌≡◌, refl, arith, some, none, true, List, [], ◌∷◌, ◌==◌, if◌then◌else◌}
use principal.Base.Int.{ℤ, pos, ◌≤ℤ◌, ◌+ℤ◌}
use principal.Host.{Env, Views, ok, err, commit, is_authorized}
use principal.Host.Errors.{ManagerError, manager}
use principal.Token.Simple.{simple}
use principal.Oracle
use principal.Manager
use principal.Manager.{Joint, MintResult, RedeemResult}
use principal.Manager.Claiming.{payable}
use principal.Manager.Yielding.{Collectable, claim_yield-pays}
use principal.Manager.Moving.{Moves}
use principal.Manager.Legs.{redeem-yt_pays}
use principal.Manager.Refusals.{Answers, mint-refused}
use principal.Manager.Payout.{principal-bounded}
use principal.Manager.Topology.{IsCoherent, initialize-IsCoherent}
use principal.Tests.Fixtures.{signed_by, views_at}
use principal.Tests.Market as Setting
use principal.Tests.Market.{contracts, wrapper, wrapper-IsSound, yt_token}
use principal.Tests.ManagerRuns.{
  views, start, claimed, claim_runs, later, redeemed, redeem_runs, minted, mint_runs,
}

claim_yield-pays_example :
    (amount : ℤ) × Collectable simple views 5 yt_token amount
    × (pos 1 ≡ payable amount)
    × Moves simple 20 100 5 (pos 1) contracts.ledger (claimed.1).ledger
claim_yield-pays_example =
    claim_yield-pays simple views (signed_by 5 200) 5 100 80 20 (pos 1) wrapper yt_token start
      claimed refl refl wrapper-IsSound refl refl refl claim_runs

redeem-yt_pays_example :
    (amount : ℤ) × Collectable simple views 5 yt_token amount
    × (pos 1 ≡ payable amount)
    × Moves simple 20 100 5 (pos 48 +ℤ pos 1) contracts.ledger (redeemed.1).ledger
redeem-yt_pays_example =
    redeem-yt_pays simple views later 5 59 100 80 20 (pos 50)
      (record { underlying_from_pt = pos 48; underlying_from_yt = pos 1 }) wrapper yt_token start
      redeemed refl refl wrapper-IsSound refl refl refl redeem_runs

answers : Answers views 5 Setting.manager
answers = record {
  oracle = 60;
  registry = 30;
  asset = 20;
  end_of_term = 5000;
  fresh = true;
  on_sac = true;
  permitted = true;
  has_oracle = refl;
  has_permissioning = refl;
  has_underlying = refl;
  has_maturity = refl;
  says_fresh = refl;
  says_on_sac = refl;
  says_permitted = refl;
}

mint-refused_example :
    Manager.mint simple views later 5 (pos 0) start ≡ err (manager ManagerError.already_mature)
unfolding answers
mint-refused_example =
    mint-refused simple views later 5 start (pos 0) (manager ManagerError.already_mature) answers
      refl

-- The oracle's price is 1.03 when 100 shares are taken, and 1.1 when 50 PT are redeemed.
abbrev before : List (Env × Oracle.Call)
before =
    (signed_by 1 60, Oracle.Call.initialize 1)
    ∷ (signed_by 1 60, Oracle.Call.set_reference_value 1 (pos 10300000) 900)
    ∷ []

abbrev after : List (Env × Oracle.Call)
after = (signed_by 1 60, Oracle.Call.set_reference_value 1 (pos 11000000) 5800) ∷ []

abbrev higher : Views
higher = views_at (pos 11000000)

abbrev half : Joint simple
half = commit start (Manager.redeem simple higher later 5 (pos 50) (pos 0) start)

half_runs :
    Manager.redeem simple higher later 5 (pos 50) (pos 0) start
    ≡ ok (record { underlying_from_pt = pos 45; underlying_from_yt = pos 0 }, half)
unfolding Manager.redeem Manager.redeem_pt principal.Pt.burn principal.Base.Balances.get_amount
    principal.Host.checked principal.Host.in_i128 principal.Base.Int.◌-ℤ◌ principal.Host.mul_div
    principal.Base.Int.◌*ℤ◌ principal.Base.Int.quot_ℤ principal.Sy.exchange_rate
    principal.Sy.withdraw principal.Sy.withdraw_effects principal.Sy.shares_to_underlying
half_runs = refl

principal-bounded_example : pos 45 ≤ℤ pos 100
unfolding Oracle.run Oracle.initialize Oracle.set_reference_value Oracle.get_reference_value
principal-bounded_example =
    principal-bounded simple views higher (signed_by 5 200) later 5 5 100 50 100 (pos 0) before
      after (record { pt_minted = pos 103; yt_minted = pos 103 })
      (record { underlying_from_pt = pos 45; underlying_from_yt = pos 0 }) wrapper start minted
      start half refl refl mint_runs refl refl wrapper-IsSound (omega arith) half_runs

abbrev blank : Joint simple
blank = (Manager.empty, contracts)

abbrev wired : Joint simple
wired =
    commit blank (Manager.initialize simple views (signed_by 1 200) 1 100 70 80 60 30 20 5000 blank)

wired_runs :
    Manager.initialize simple views (signed_by 1 200) 1 100 70 80 60 30 20 5000 blank
    ≡ ok (tt, wired)
unfolding Manager.initialize principal.Sy.get_underlying principal.Pt.underlying_address
    principal.Yt.underlying_address principal.Sy.permissioning_address
    principal.Pt.permissioning_address principal.Yt.permissioning_address principal.Pt.maturity
    principal.Yt.maturity principal.Yt.oracle_address
wired_runs = refl

initialize-IsCoherent_example :
    (Manager.empty.admin ≡ none)
    × (is_authorized (signed_by 1 200) 1 ≡ true)
    × (views.sac_admin 20 ≡ ok 1)
    × (wired.1 ≡ contracts)
    × IsCoherent simple (wired.0) (wired.1)
initialize-IsCoherent_example =
    initialize-IsCoherent simple views (signed_by 1 200) 1 100 70 80 60 30 20 5000 blank wired
      wired_runs
