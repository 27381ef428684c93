-- ===== src/Tests/ManagerRuns.antt =====
-- Runs of PrincipalManager in a market.
use principal.Base.{
  none, ◌==◌, if◌then◌else◌, ℕ, ◌≡◌, refl, arith, some, ◌≤◌, ◌+◌, ◌*◌, ◌/◌, unwrap_or, [], ◌∷◌,
}
use principal.Base.Int.{ℤ, pos, ◌+ℤ◌, ◌≤ℤ◌}
use principal.Base.Balances.{get_amount}
use principal.Host.{Env, Views, ok, commit, mul_div}
use principal.Token.Simple.{simple}
use principal.Manager
use principal.Manager.{Joint, MintResult, RedeemResult, IsOpen, u64_max, scale}
use principal.Manager.Maturity.{redeem-pt_floor}
use principal.Manager.Solvency.{IsMarket, mint_at_two-overpays}
use principal.Yt
use principal.Yt.{update_yield_index, settle}
use principal.Tests.Fixtures.{signed_by, at_time, views_at}
use principal.Tests.Market.{contracts, manager, wrapper, wrapper-IsSound, yt_token}

abbrev pub views : Views
views = views_at (pos 10300000)

abbrev pub start : Joint simple
start = (manager, contracts)

abbrev pub minted : Joint simple
minted = commit start (Manager.mint simple views (signed_by 5 200) 5 (pos 100) start)

pub mint_runs :
    Manager.mint simple views (signed_by 5 200) 5 (pos 100) start
    ≡ ok (record { pt_minted = pos 103; yt_minted = pos 103 }, minted)
unfolding Manager.mint mul_div principal.Host.checked principal.Host.in_i128 principal.Base.Int.◌*ℤ◌
    principal.Base.Int.quot_ℤ Manager.mint_calls principal.Sy.transfer get_amount
    principal.Base.Int.◌-ℤ◌ ◌+ℤ◌ principal.Base.Balances.set_amount update_yield_index
    Yt.advance_index principal.Pt.mint Yt.mint settle Yt.settle_pending Yt.accrue Yt.add_pending
mint_runs = refl

abbrev pub later : Env
later = at_time 6000 90 5 200

abbrev pub redeemed : Joint simple
redeemed = commit start (Manager.redeem simple views later 5 (pos 50) (pos 60) start)

pub redeem_runs :
    Manager.redeem simple views later 5 (pos 50) (pos 60) start
    ≡ ok (record { underlying_from_pt = pos 48; underlying_from_yt = pos 1 }, redeemed)
unfolding Manager.redeem Manager.redeem_pt principal.Pt.burn get_amount principal.Host.checked
    principal.Host.in_i128 principal.Base.Int.◌-ℤ◌ mul_div principal.Base.Int.◌*ℤ◌
    principal.Base.Int.quot_ℤ principal.Sy.exchange_rate principal.Sy.withdraw
    principal.Sy.withdraw_effects principal.Sy.shares_to_underlying Manager.redeem_yt
    update_yield_index Yt.advance_index Yt.burn principal.Base.Balances.set_amount ◌+ℤ◌
    Manager.pay_out Yt.accrue Yt.add_pending Yt.claim_yield settle Yt.settle_pending
redeem_runs = refl

redeem-pt_floor_example :
    IsOpen views later 5 manager
    × (unwrap_or manager.maturity u64_max ≤ 6000)
    × (pos 48 ≡ pos (50 * 10000000 / 10300000))
redeem-pt_floor_example =
    redeem-pt_floor simple views later 5 50 10299999 100 (pos 60)
      (record { underlying_from_pt = pos 48; underlying_from_yt = pos 1 }) wrapper start redeemed
      refl refl wrapper-IsSound refl redeem_runs

abbrev pub claimed : Joint simple
claimed = commit start (Manager.claim_yield simple views (signed_by 5 200) 5 start)

pub claim_runs : Manager.claim_yield simple views (signed_by 5 200) 5 start ≡ ok (pos 1, claimed)
unfolding Manager.claim_yield Manager.pay_claim principal.Host.checked principal.Host.in_i128
    principal.Base.Int.◌-ℤ◌ mul_div principal.Base.Int.◌*ℤ◌ principal.Base.Int.quot_ℤ
    principal.Sy.exchange_rate principal.Sy.withdraw principal.Sy.withdraw_effects
    principal.Sy.shares_to_underlying get_amount update_yield_index Yt.advance_index
    principal.Base.Balances.set_amount ◌+ℤ◌ Manager.pay_out Yt.accrue Yt.add_pending Yt.claim_yield
    settle Yt.settle_pending
claim_runs = refl

-- Account 6 mints with 10 shares at the rate 2.0 and redeems everything at the rate 4.0.
abbrev at_two : Views
at_two = views_at (pos 20000000)

abbrev at_four : Views
at_four = views_at (pos 40000000)

abbrev tokens_at_two : Yt.State
tokens_at_two = record yt_token {
  balances = (5, pos 100) ∷ [];
  last_oracle_rate = some (pos 20000000);
}

abbrev market_at_two : Joint simple
market_at_two =
    (manager, record contracts { yts = λ a. if a == 80 then some tokens_at_two else none })

market_at_two-IsMarket : IsMarket simple at_two 6 100 80 9999999 market_at_two
unfolding get_amount
market_at_two-IsMarket = record {
  wrapper = wrapper;
  tokens = tokens_at_two;
  has_sy = refl;
  at_sy = refl;
  sound = wrapper-IsSound;
  has_yt = refl;
  at_yt = refl;
  newcomer = record { at_two = refl; index = refl; held = refl; unclaimed = refl };
  same_oracle = refl;
  quoted = refl;
}

abbrev issued_at_two : MintResult
issued_at_two = record { pt_minted = pos 20; yt_minted = pos 20 }

abbrev after_mint : Joint simple
after_mint =
    commit market_at_two (Manager.mint simple at_two (signed_by 6 200) 6 (pos 10) market_at_two)

second_mint_runs :
    Manager.mint simple at_two (signed_by 6 200) 6 (pos 10) market_at_two
    ≡ ok (issued_at_two, after_mint)
unfolding Manager.mint mul_div principal.Host.checked principal.Host.in_i128 principal.Base.Int.◌*ℤ◌
    principal.Base.Int.quot_ℤ Manager.mint_calls principal.Sy.transfer get_amount
    principal.Base.Int.◌-ℤ◌ ◌+ℤ◌ principal.Base.Balances.set_amount update_yield_index
    Yt.advance_index principal.Pt.mint Yt.mint settle Yt.settle_pending Yt.accrue Yt.add_pending
second_mint_runs = refl

abbrev later_6 : Env
later_6 = at_time 6000 90 6 200

abbrev paid_at_four : RedeemResult
paid_at_four = record { underlying_from_pt = pos 5; underlying_from_yt = pos 10 }

abbrev after_redeem : Joint simple
after_redeem =
    commit after_mint (Manager.redeem simple at_four later_6 6 (pos 20) (pos 20) after_mint)

second_redeem_runs :
    Manager.redeem simple at_four later_6 6 (pos 20) (pos 20) after_mint
    ≡ ok (paid_at_four, after_redeem)
unfolding Manager.mint mul_div principal.Host.checked principal.Host.in_i128 principal.Base.Int.◌*ℤ◌
    principal.Base.Int.quot_ℤ Manager.mint_calls principal.Sy.transfer get_amount
    principal.Base.Int.◌-ℤ◌ ◌+ℤ◌ principal.Base.Balances.set_amount update_yield_index
    Yt.advance_index principal.Pt.mint Yt.mint settle Yt.settle_pending Yt.accrue Yt.add_pending
    Manager.redeem Manager.redeem_pt principal.Pt.burn principal.Sy.exchange_rate
    principal.Sy.withdraw principal.Sy.withdraw_effects principal.Sy.shares_to_underlying
    Manager.redeem_yt Yt.burn Manager.pay_out Yt.claim_yield
second_redeem_runs = refl

mint_at_two-overpays_example :
    (pos 20 ≡ pos (10 + 10))
    × (pos 20 ≡ pos (10 + 10))
    × (pos 5 ≡ pos (10 / 2))
    × (pos 10 ≤ℤ pos 10)
mint_at_two-overpays_example =
    mint_at_two-overpays simple at_two at_four (signed_by 6 200) later_6 6 100 80 9999999 10
      issued_at_two paid_at_four market_at_two after_mint after_redeem market_at_two-IsMarket
      second_mint_runs refl second_redeem_runs
