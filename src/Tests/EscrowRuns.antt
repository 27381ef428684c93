-- ===== src/Tests/EscrowRuns.antt =====
-- Runs of RecoveryEscrow in a market.
use principal.Base.{
  [], ◌∷◌, ℕ, ◌≡◌, refl, some, none, true, ◌==◌, ◌≤◌, ◌*◌, ◌/◌, unwrap_or, if◌then◌else◌,
}
use principal.Base.Int.{ℤ, pos}
use principal.Host.{Env, Views, ok, commit, is_authorized}
use principal.Token.Simple.{simple}
use principal.Manager.{u64_max}
use principal.Escrow
use principal.Escrow.{Joint}
use principal.Escrow.Seizing.{IsOrdered, Recovered, seize_sy-recovers}
use principal.Escrow.Finalizing.{finalize_pt-floor, finalize_yt-pays}
use principal.Yt
use principal.Manager.Claiming.{payable}
use principal.Manager.Yielding.{Collectable}
use principal.Tests.Fixtures.{signed_by, at_time, views_without}
use principal.Tests.Market.{yt_token, contracts, manager, escrow, wrapper, wrapper-IsSound}

-- The asset has deauthorized account 6.
abbrev views : Views
views = views_without 6 (pos 10300000)

abbrev start : Joint simple
start = (escrow, ((λ a. if a == 200 then some manager else none), contracts))

abbrev issuer : Env
issuer = signed_by 1 300

abbrev sy_seized : Joint simple
sy_seized = commit start (Escrow.seize_sy simple views issuer 1 6 (pos 250) start)

seize_sy_runs : Escrow.seize_sy simple views issuer 1 6 (pos 250) start ≡ ok (pos 250, sy_seized)
unfolding Escrow.seize_sy principal.Sy.seize principal.Base.Balances.get_amount
    principal.Host.checked principal.Host.in_i128 principal.Base.Int.◌-ℤ◌ principal.Base.Int.◌+ℤ◌
    principal.Base.Balances.set_amount principal.Sy.withdraw principal.Sy.withdraw_effects
    principal.Sy.shares_to_underlying principal.Sy.exchange_rate principal.Host.mul_div
    principal.Base.Int.◌*ℤ◌ principal.Base.Int.quot_ℤ
seize_sy_runs = refl

seize_sy-recovers_example :
    IsOrdered views issuer 1 6 escrow
    × (pos 250 ≡ pos 250)
    × Recovered simple 100 6 300 (pos 250) wrapper ((sy_seized.1).1)
seize_sy-recovers_example =
    seize_sy-recovers simple views issuer 1 6 100 (pos 250) (pos 250) wrapper start sy_seized refl
      refl wrapper-IsSound refl seize_sy_runs

abbrev pt_seized : Joint simple
pt_seized = commit start (Escrow.seize_pt simple views issuer 1 6 (pos 10) start)

seize_pt_runs : Escrow.seize_pt simple views issuer 1 6 (pos 10) start ≡ ok (pos 10, pt_seized)
unfolding Escrow.seize_pt principal.Pt.seize principal.Base.Balances.get_amount
    principal.Host.checked principal.Host.in_i128 principal.Base.Int.◌-ℤ◌ principal.Base.Int.◌+ℤ◌
    principal.Base.Balances.set_amount
seize_pt_runs = refl

abbrev yt_seized : Joint simple
yt_seized = commit start (Escrow.seize_yt simple views issuer 1 6 (pos 40) start)

seize_yt_runs : Escrow.seize_yt simple views issuer 1 6 (pos 40) start ≡ ok (pos 40, yt_seized)
unfolding Escrow.seize_yt principal.Yt.seize principal.Base.Balances.get_amount principal.Yt.settle
    principal.Host.checked principal.Host.in_i128 principal.Base.Int.◌-ℤ◌ principal.Base.Int.◌+ℤ◌
    principal.Base.Balances.set_amount
seize_yt_runs = refl

abbrev later : Env
later = at_time 6000 90 1 300

abbrev finalized : Joint simple
finalized = commit start (Escrow.finalize_pt simple views later 1 (pos 40) start)

finalize_pt_runs : Escrow.finalize_pt simple views later 1 (pos 40) start ≡ ok (pos 38, finalized)
unfolding Escrow.finalize_pt principal.Manager.redeem principal.Manager.redeem_pt principal.Pt.burn
    principal.Base.Balances.get_amount principal.Host.checked principal.Host.in_i128
    principal.Base.Int.◌-ℤ◌ principal.Host.mul_div principal.Base.Int.◌*ℤ◌ principal.Base.Int.quot_ℤ
    principal.Sy.exchange_rate principal.Sy.withdraw principal.Sy.withdraw_effects
    principal.Sy.shares_to_underlying
finalize_pt_runs = refl

finalize_pt-floor_example :
    (is_authorized later 1 ≡ true)
    × (views.sac_admin 20 ≡ ok 1)
    × (unwrap_or manager.maturity u64_max ≤ 6000)
    × (pos 38 ≡ pos (40 * 10000000 / 10300000))
finalize_pt-floor_example =
    finalize_pt-floor simple views later 1 200 100 40 10299999 (pos 38) manager wrapper start
      finalized refl refl refl refl wrapper-IsSound refl finalize_pt_runs

-- The escrow holds 40 YT that it has seized.
abbrev holding : Yt.State
holding = record yt_token { balances = (5, pos 60) ∷ (300, pos 40) ∷ [] }

abbrev held : Joint simple
held = (
  escrow,
  (
    (λ a. if a == 200 then some manager else none),
    record contracts { yts = λ a. if a == 80 then some holding else none },
  ),
)

abbrev yt_finalized : Joint simple
yt_finalized = commit held (Escrow.finalize_yt simple views later 1 (pos 40) held)

finalize_yt_runs : Escrow.finalize_yt simple views later 1 (pos 40) held ≡ ok (pos 1, yt_finalized)
unfolding Escrow.finalize_yt principal.Manager.redeem principal.Manager.redeem_yt
    Yt.update_yield_index Yt.advance_index principal.Host.mul_div principal.Host.checked
    principal.Host.in_i128 principal.Base.Int.◌*ℤ◌ principal.Base.Int.quot_ℤ Yt.burn
    principal.Base.Balances.get_amount Yt.settle Yt.settle_pending Yt.accrue principal.Base.Int.◌-ℤ◌
    Yt.add_pending principal.Base.Balances.set_amount principal.Base.Int.◌+ℤ◌
    principal.Manager.pay_out Yt.claim_yield principal.Sy.exchange_rate principal.Sy.withdraw
    principal.Sy.withdraw_effects principal.Sy.shares_to_underlying
finalize_yt_runs = refl

finalize_yt-pays_example :
    (is_authorized later 1 ≡ true)
    × (views.sac_admin 20 ≡ ok 1)
    × (claimed : ℤ) × Collectable simple views 300 holding claimed
    × (pos 1 ≡ payable claimed)
finalize_yt-pays_example =
    finalize_yt-pays simple views later 1 200 100 80 39 (pos 1) manager wrapper holding held
      yt_finalized refl refl refl refl wrapper-IsSound refl refl finalize_yt_runs
