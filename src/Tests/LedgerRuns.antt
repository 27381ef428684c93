-- ===== src/Tests/LedgerRuns.antt =====
-- Histories of PTToken and YTToken as ledgers.
use principal.Base.{some, true, ℕ, ◌≡◌, refl, List, [], ◌∷◌, All, arith}
use principal.Base.Int.{ℤ, pos, ◌+ℤ◌, ◌≤ℤ◌}
use principal.Base.Balances.{get_amount}
use principal.Host.{ok, commit, is_authorized}
use principal.Ledger.Histories.{Run, total, paid, received, minted, collected}
use principal.Pt
use principal.Pt.Refinement.{ledger, events, run-implements, run-books}
use principal.Pt.Spending.{total_spent, run-spent}
use principal.Yt
use principal.Yt.Claimable.{claimable}
use principal.Yt.Metered.{IsPriced}
use principal.Yt.LedgerView.{yt_ledger}
use principal.Yt.Collecting.{Collected, claim_yield-Collected}
use principal.Yt.Refinement.{yt_events, yt_run-implements, yield-kept}
use principal.Tests.Fixtures.{signed_by}
use principal.Tests.PtRuns as PtRuns
use principal.Tests.YtRuns as YtRuns

run-implements_example :
    Run (ledger Pt.empty) (events PtRuns.set_up Pt.empty) (ledger (Pt.run PtRuns.set_up Pt.empty))
run-implements_example = run-implements PtRuns.set_up

run-books_example :
    (get_amount (Pt.run PtRuns.set_up Pt.empty).balances 5
        +ℤ total (paid 5) (events PtRuns.set_up Pt.empty)
      ≡ total (received 5) (events PtRuns.set_up Pt.empty))
    × (Pt.total_supply (Pt.run PtRuns.set_up Pt.empty)
        ≡ total minted (events PtRuns.set_up Pt.empty))
run-books_example = run-books PtRuns.set_up 5

-- 8 may move 20 of the tokens of 5: 15 pass, then 10 more do not.
abbrev spending : List Pt.Request
spending =
    (PtRuns.views, signed_by 8 70, Pt.Call.transfer_from 8 5 6 (pos 15))
    ∷ (PtRuns.views, signed_by 8 70, Pt.Call.transfer_from 8 5 6 (pos 10))
    ∷ []

allowed : pos 0 ≤ℤ Pt.allowance 5 8 PtRuns.market
unfolding Pt.allowance principal.Allowance.get_allowance
allowed = omega arith

run-spent_example :
    (Pt.allowance 5 8 (Pt.run spending PtRuns.market) +ℤ total_spent 5 8 spending PtRuns.market
      ≡ Pt.allowance 5 8 PtRuns.market)
    × (pos 0 ≤ℤ Pt.allowance 5 8 (Pt.run spending PtRuns.market))
    × (total_spent 5 8 spending PtRuns.market ≤ℤ Pt.allowance 5 8 PtRuns.market)
run-spent_example = run-spent 5 8 spending PtRuns.market (refl, (refl, tt)) allowed

set_up-IsPriced : All (λ (r : Yt.Request). IsPriced r.0) YtRuns.set_up
set_up-IsPriced = (
  (λ o. omega arith),
  (
    (λ o. omega arith),
    (
      (λ o. omega arith),
      ((λ o. omega arith), ((λ o. omega arith), ((λ o. omega arith), ((λ o. omega arith), tt)))),
    ),
  ),
)

yt_run-implements_example :
    Run
      (yt_ledger Yt.empty)
      (yt_events YtRuns.set_up Yt.empty)
      (yt_ledger (Yt.run YtRuns.set_up Yt.empty))
yt_run-implements_example = yt_run-implements YtRuns.set_up set_up-IsPriced

abbrev after_set_up : List Yt.Request
after_set_up =
    (YtRuns.risen, signed_by 5 80, Yt.Call.transfer 5 6 (pos 400))
    ∷ (YtRuns.risen, signed_by 40 80, Yt.Call.claim_yield 40 6)
    ∷ []

yield-kept_example :
    claimable 6 (Yt.run YtRuns.set_up Yt.empty)
    ≤ℤ claimable 6 (Yt.run after_set_up (Yt.run YtRuns.set_up Yt.empty))
      +ℤ total (collected 6) (yt_events after_set_up (Yt.run YtRuns.set_up Yt.empty))
yield-kept_example =
    yield-kept YtRuns.set_up after_set_up 6 set_up-IsPriced
      ((λ o. omega arith), ((λ o. omega arith), tt))

abbrev emptied : Yt.State
emptied = commit YtRuns.updated (Yt.claim_yield (signed_by 40 80) 40 5 YtRuns.updated)

claim_runs : Yt.claim_yield (signed_by 40 80) 40 5 YtRuns.updated ≡ ok (pos 29, emptied)
unfolding Yt.claim_yield Yt.update_yield_index Yt.advance_index principal.Host.mul_div
    principal.Host.checked principal.Host.in_i128 principal.Base.Int.◌*ℤ◌ principal.Base.Int.quot_ℤ
    Yt.settle Yt.settle_pending get_amount Yt.accrue principal.Base.Int.◌-ℤ◌ Yt.add_pending ◌+ℤ◌
    principal.Base.Balances.set_amount
claim_runs = refl

claim_yield-Collected_example :
    (is_authorized (signed_by 40 80) 40 ≡ true)
    × (YtRuns.updated.minter ≡ some 40)
    × Collected 5 (pos 29) YtRuns.updated emptied
claim_yield-Collected_example =
    claim_yield-Collected (signed_by 40 80) 40 5 (pos 29) YtRuns.updated emptied claim_runs
