-- ===== src/Tests/MarketRuns.antt =====
-- Transactions of one market in a row.
use principal.Base.{ℕ, ◌≡◌, refl, arith, some, put, unwrap_or}
use principal.Base.Int.{ℤ, pos}
use principal.Host.{commit}
use principal.Token.Simple.{simple}
use principal.Pt
use principal.Yt
use principal.Manager
use principal.Manager.{Joint}
use principal.Market.Steps.{Step, Reach}
use principal.Market.Pairing.{IsPaired}
use principal.Market.Supplies.{Reach-paired}
use principal.Tests.Fixtures.{signed_by}
use principal.Tests.Market as Setting
use principal.Tests.ManagerRuns.{views, start, minted}

start-IsPaired : IsPaired simple 200 70 80 5000 start
unfolding Pt.total_supply Yt.total_supply
start-IsPaired = record {
  supply = pos 100;
  pt_admin = 1;
  yt_admin = 1;
  principal_token = Setting.pt_token;
  yield_token = Setting.yt_token;
  has_pt = refl;
  has_yt = refl;
  has_maturity = refl;
  pt_at = refl;
  yt_at = refl;
  pt_side = record { has_admin = refl; has_minter = refl; has_supply = refl };
  yt_side = record { has_admin = refl; has_minter = refl; has_supply = refl };
}

-- 5 mints at the manager, and then 6 attempts to mint at the PT contract itself, which panics.
abbrev pt_minted : Pt.State
pt_minted = unwrap_or ((minted.1).pts 70) Pt.empty

abbrev yt_minted : Yt.State
yt_minted = unwrap_or ((minted.1).yts 80) Yt.empty

pt_stands : (minted.1).pts 70 ≡ some pt_minted
unfolding Manager.mint principal.Host.mul_div principal.Host.checked principal.Host.in_i128
    principal.Base.Int.◌*ℤ◌ principal.Base.Int.quot_ℤ Manager.mint_calls principal.Sy.transfer
    principal.Base.Balances.get_amount principal.Base.Int.◌-ℤ◌ principal.Base.Int.◌+ℤ◌
    principal.Base.Balances.set_amount Yt.update_yield_index Yt.advance_index Pt.mint Yt.mint
    Yt.settle Yt.settle_pending Yt.accrue Yt.add_pending
pt_stands = refl

yt_stands : (minted.1).yts 80 ≡ some yt_minted
unfolding Manager.mint principal.Host.mul_div principal.Host.checked principal.Host.in_i128
    principal.Base.Int.◌*ℤ◌ principal.Base.Int.quot_ℤ Manager.mint_calls principal.Sy.transfer
    principal.Base.Balances.get_amount principal.Base.Int.◌-ℤ◌ principal.Base.Int.◌+ℤ◌
    principal.Base.Balances.set_amount Yt.update_yield_index Yt.advance_index Pt.mint Yt.mint
    Yt.settle Yt.settle_pending Yt.accrue Yt.add_pending
yt_stands = refl

minted_supply : Pt.total_supply pt_minted ≡ pos 203
unfolding Manager.mint principal.Host.mul_div principal.Host.checked principal.Host.in_i128
    principal.Base.Int.◌*ℤ◌ principal.Base.Int.quot_ℤ Manager.mint_calls principal.Sy.transfer
    principal.Base.Balances.get_amount principal.Base.Int.◌-ℤ◌ principal.Base.Int.◌+ℤ◌
    principal.Base.Balances.set_amount Yt.update_yield_index Yt.advance_index Pt.mint Yt.mint
    Yt.settle Yt.settle_pending Yt.accrue Yt.add_pending Pt.total_supply
minted_supply = refl

abbrev attempt : Pt.Call
attempt = Pt.Call.mint 6 (pos 1000)

abbrev pt_after : Pt.State
pt_after = Pt.apply_call views (signed_by 6 70) attempt pt_minted

abbrev last : Joint simple
last = (minted.0, record (minted.1) { pts = put (minted.1).pts 70 pt_after })

history : Reach simple 200 70 80 5000 start last
history =
    Reach.after
      (Reach.after Reach.here
        (Step.mints views (signed_by 5 200) 5 (pos 100) start refl (omega arith)))
      (Step.calls_pt views (signed_by 6 70) attempt pt_minted minted refl pt_stands)

Reach-paired_example : Pt.total_supply pt_after ≡ Yt.total_supply yt_minted
Reach-paired_example =
    Reach-paired simple 200 70 80 5000 start last pt_after yt_minted start-IsPaired history refl
      yt_stands
