-- ===== src/Tests/YtRuns.antt =====
-- Runs of YTToken.
use principal.Base.{
  ℕ, ◌≡◌, refl, List, [], ◌∷◌, none, some, true, false, ◌==◌, ◌&&◌, if◌then◌else◌, ◌-◌, ◌≤◌, length,
  arith,
}
use principal.Base.Int.{ℤ, pos}
use principal.Base.Balances.{get_amount}
use principal.Host.{Env, Views, ok, err, commit, is_authorized}
use principal.Yt
use principal.Yt.{
  State, Call, Request, empty, run, total_supply, settle, update_yield_index, last_claimed_index,
  accrued_yield_index,
}
use principal.Yt.Supply.{IsSound, yt_run-IsSound}
use principal.Yt.Authority.{IsFrozen, yt_run-IsFrozen}
use principal.Yt.Settle.{Settled, Adds, owed, settle_ok}
use principal.Yt.Index.{Since, updates, updates-Since}
use principal.Yt.Rounding.{two_rises_cost_more}
use principal.Tests.Fixtures.{signed_by, views_at, views_without}

abbrev pub views : Views
views = views_at (pos 10000000)

abbrev pub risen : Views
risen = views_at (pos 10300000)

-- The asset has deauthorized account 6.
abbrev pub without : Views
without = views_without 6 (pos 10300000)

-- Token 80 of the asset 20 with oracle 60: minter 40, escrow 50; the rate rises between two mints.
abbrev pub set_up : List Request
set_up =
    (views, signed_by 1 80, Call.initialize 1 30 20 60 5000 "YT" "YT" 7)
    ∷ (views, signed_by 1 80, Call.set_minter 1 40)
    ∷ (views, signed_by 1 80, Call.set_recovery_escrow 1 50)
    ∷ (views, signed_by 40 80, Call.mint 5 (pos 1000))
    ∷ (risen, signed_by 2 80, Call.update_yield_index)
    ∷ (risen, signed_by 40 80, Call.mint 6 (pos 30))
    ∷ (risen, signed_by 40 80, Call.claim_yield 40 5)
    ∷ []

yt_run-IsSound_example : IsSound (run set_up empty)
yt_run-IsSound_example = yt_run-IsSound set_up

abbrev pub market : State
market = record {
  admin = some 1;
  minter = some 40;
  permissioning = some 30;
  underlying = some 20;
  recovery_escrow = some 50;
  oracle = some 60;
  maturity = some 5000;
  name = some "YT";
  symbol = some "YT";
  decimals = some 7;
  total_supply = some (pos 1030);
  balances = (5, pos 1000) ∷ (6, pos 30) ∷ [];
  allowances = λ owner spender. none;
  yield_index = some (pos 10000000);
  last_oracle_rate = some (pos 10000000);
  last_claimed_index = λ a. if a == 6 then some (pos 10000000) else none;
  pending_claim = [];
}

abbrev attempts : List Request
attempts =
    (without, signed_by 6 80, Call.transfer 6 5 (pos 10))
    ∷ (without, signed_by 5 80, Call.transfer 5 6 (pos 10))
    ∷ (without, signed_by 2 80, Call.update_yield_index)
    ∷ []

yt_run-IsFrozen_example : IsFrozen 1 40 50 20 6 (pos 30) (run attempts market)
unfolding get_amount
yt_run-IsFrozen_example =
    yt_run-IsFrozen 1 40 50 20 6 (pos 30) attempts market
      (((refl, refl), refl), (((refl, refl), refl), (((refl, refl), refl), tt)))
      (record {
        wired = record {
          has_admin = refl;
          has_minter = refl;
          has_escrow = refl;
          has_underlying = refl;
        };
        held = refl;
      })

abbrev pub updated : State
updated = commit market (update_yield_index risen market)

update_runs : update_yield_index risen market ≡ ok (tt, updated)
unfolding update_yield_index Yt.advance_index principal.Host.mul_div principal.Host.checked
    principal.Host.in_i128 principal.Base.Int.◌*ℤ◌ principal.Base.Int.quot_ℤ
update_runs = refl

updates-Since_example : Since 10000000 9999999 (updates (risen ∷ views ∷ []) market)
updates-Since_example = updates-Since 10000000 9999999 (risen ∷ views ∷ []) market (record {
  index = 10000000;
  rate = 9999999;
  has_index = refl;
  has_rate = refl;
  fell = omega arith;
  rose = omega arith;
  bounded = omega arith;
})

abbrev settled : State
settled = commit updated (settle 5 updated)

settle_runs : settle 5 updated ≡ ok (tt, settled)
unfolding settle update_yield_index Yt.advance_index principal.Host.mul_div principal.Host.checked
    principal.Host.in_i128 principal.Base.Int.◌*ℤ◌ principal.Base.Int.quot_ℤ Yt.settle_pending
    get_amount Yt.accrue principal.Base.Int.◌-ℤ◌ Yt.add_pending principal.Base.Int.◌+ℤ◌
settle_runs = refl

updated_index : accrued_yield_index updated ≡ pos 9708737
unfolding accrued_yield_index update_yield_index Yt.advance_index principal.Host.mul_div
    principal.Host.checked principal.Host.in_i128 principal.Base.Int.◌*ℤ◌ principal.Base.Int.quot_ℤ
updated_index = refl

updated_balance : get_amount updated.balances 5 ≡ pos 1000
unfolding get_amount update_yield_index Yt.advance_index principal.Host.mul_div
    principal.Host.checked principal.Host.in_i128 principal.Base.Int.◌*ℤ◌ principal.Base.Int.quot_ℤ
updated_balance = refl

updated_snapshot : last_claimed_index 5 updated ≡ pos 10000000
unfolding last_claimed_index update_yield_index Yt.advance_index principal.Host.mul_div
    principal.Host.checked principal.Host.in_i128 principal.Base.Int.◌*ℤ◌ principal.Base.Int.quot_ℤ
updated_snapshot = refl

settle_ok_example :
    Settled 5 updated settled × Adds 5 (pos (owed 1000 10000000 9708737)) updated settled
settle_ok_example =
    settle_ok 5 1000 9999999 9708737 updated settled updated_balance updated_snapshot updated_index
      settle_runs

-- 29 units of the underlying for a rise of 3 percent.
settled_claim : get_amount settled.pending_claim 5 ≡ pos 29
unfolding settle get_amount update_yield_index Yt.advance_index principal.Host.mul_div
    principal.Host.checked principal.Host.in_i128 principal.Base.Int.◌*ℤ◌ principal.Base.Int.quot_ℤ
    Yt.settle_pending Yt.accrue principal.Base.Int.◌-ℤ◌ Yt.add_pending principal.Base.Int.◌+ℤ◌
    principal.Base.Balances.set_amount
settled_claim = refl

-- An index of 4 at a rate of 8: the rate rises to 10, by way of 9 or at once.
abbrev low : State
low = record market { yield_index = some (pos 4); last_oracle_rate = some (pos 8) }

abbrev between : State
between = commit low (update_yield_index (views_at (pos 9)) low)

abbrev after : State
after = commit between (update_yield_index (views_at (pos 10)) between)

abbrev direct : State
direct = commit low (update_yield_index (views_at (pos 10)) low)

via_runs : update_yield_index (views_at (pos 9)) low ≡ ok (tt, between)
unfolding update_yield_index Yt.advance_index principal.Host.mul_div principal.Host.checked
    principal.Host.in_i128 principal.Base.Int.◌*ℤ◌ principal.Base.Int.quot_ℤ
via_runs = refl

last_runs : update_yield_index (views_at (pos 10)) between ≡ ok (tt, after)
unfolding update_yield_index Yt.advance_index principal.Host.mul_div principal.Host.checked
    principal.Host.in_i128 principal.Base.Int.◌*ℤ◌ principal.Base.Int.quot_ℤ
last_runs = refl

direct_runs : update_yield_index (views_at (pos 10)) low ≡ ok (tt, direct)
unfolding update_yield_index Yt.advance_index principal.Host.mul_div principal.Host.checked
    principal.Host.in_i128 principal.Base.Int.◌*ℤ◌ principal.Base.Int.quot_ℤ
direct_runs = refl

two_rises_cost_more_example :
    (after.yield_index ≡ some (pos (4 - 2))) × (direct.yield_index ≡ some (pos (4 - 1)))
two_rises_cost_more_example =
    two_rises_cost_more 4 7 (views_at (pos 9)) (views_at (pos 10)) low between after direct
      (omega arith) (omega arith) refl refl refl refl via_runs last_runs direct_runs
