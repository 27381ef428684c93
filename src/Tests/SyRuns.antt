-- ===== src/Tests/SyRuns.antt =====
-- Runs of SYWrapper beside a token contract.
use principal.Base.{
  ℕ, ◌≡◌, refl, arith, none, some, true, false, ◌==◌, ◌&&◌, if◌then◌else◌, ◌≢◌, ◌+◌, ◌<◌, ◌*◌, ◌^◌,
}
use principal.Base.Int.{ℤ, pos, ◌≤ℤ◌, ◌+ℤ◌}
use principal.Host.{Env, Views, ok, commit}
use principal.Token.Simple.{simple, Amounts}
use principal.Sy
use principal.Sy.{State, empty, total_shares, exchange_rate, rate_scale, Joint}
use principal.Sy.Steps.{Step, Reach}
use principal.Sy.Custody.{IsSafe}
use principal.Sy.Reachable.{Reach-IsSafe, Reach-exchange_rate}
use principal.Tests.Fixtures.{signed_by, views_at}

-- The wrapper is contract 100, the asset 20 and the registry 30; account 5 owns 1000 units.
abbrev units : Amounts
units asset a = if asset == 20 && a == 5 then 1000 else 0

abbrev views : Views
views = views_at (pos 10000000)

abbrev fresh : State
fresh = commit empty (Sy.initialize views (signed_by 1 100) 1 20 30 empty)

initialize_runs : Sy.initialize views (signed_by 1 100) 1 20 30 empty ≡ ok (tt, fresh)
unfolding Sy.initialize
initialize_runs = refl

abbrev funded : Joint simple
funded =
    commit (fresh, units) (Sy.deposit simple views (signed_by 5 100) 5 (pos 600) (fresh, units))

deposit_runs :
    Sy.deposit simple views (signed_by 5 100) 5 (pos 600) (fresh, units) ≡ ok (pos 600, funded)
unfolding Sy.deposit Sy.deposit_effects Sy.initialize Sy.underlying_to_shares principal.Host.checked
    principal.Host.in_i128 principal.Base.Int.◌+ℤ◌ principal.Base.Balances.get_amount
deposit_runs = refl

reached : Reach simple 100 (empty, units) funded
reached =
    Reach.next
      (Reach.next Reach.here
        (Step.initialize views (signed_by 1 100) 1 20 30 fresh initialize_runs refl))
      (Step.deposit views (signed_by 5 100) 5 (pos 600) (pos 600) refl (λ e. cc) deposit_runs)

-- The issuer claws back 50 of the 600 units that the wrapper holds.
abbrev clawed : Joint simple
clawed = (funded.0, λ asset a. if asset == 20 && a == 100 then 550 else funded.1 asset a)

clawback_left : pos (funded.1 20 100) ≤ℤ pos (clawed.1 20 100) +ℤ pos 50
unfolding Sy.deposit Sy.deposit_effects Sy.initialize Sy.underlying_to_shares principal.Host.checked
    principal.Host.in_i128 principal.Base.Int.◌+ℤ◌ principal.Base.Balances.get_amount
clawback_left = omega arith

clawback_others : (other : ℕ) → other ≢ 20 → pos (funded.1 other 100) ≤ℤ pos (clawed.1 other 100)
clawback_others other ne = ground arith

reached_clawback : Reach simple 100 (empty, units) clawed
reached_clawback =
    Reach.next reached (Step.clawback 20 50 clawed.1 clawback_left clawback_others refl)

Reach-IsSafe_example : IsSafe simple 100 (λ a. (if 20 == a then 50 else 0) + 0) clawed
unfolding reached_clawback reached
Reach-IsSafe_example = Reach-IsSafe simple 100 units clawed reached_clawback

funded_shares : total_shares funded.0 ≡ pos 600
unfolding total_shares Sy.deposit Sy.deposit_effects Sy.initialize Sy.underlying_to_shares
    principal.Host.checked principal.Host.in_i128 principal.Base.Int.◌+ℤ◌
    principal.Base.Balances.get_amount
funded_shares = refl

Reach-exchange_rate_example : exchange_rate funded.0 ≡ ok rate_scale
Reach-exchange_rate_example =
    Reach-exchange_rate simple 100 units funded 600 reached funded_shares (omega arith)

abbrev more : Joint simple
more = commit funded (Sy.deposit simple views (signed_by 5 100) 5 (pos 100) funded)

second_deposit_runs :
    Sy.deposit simple views (signed_by 5 100) 5 (pos 100) funded ≡ ok (pos 100, more)
unfolding Sy.deposit Sy.deposit_effects Sy.initialize Sy.underlying_to_shares principal.Host.checked
    principal.Host.in_i128 principal.Base.Int.◌+ℤ◌ principal.Base.Balances.get_amount exchange_rate
    principal.Host.mul_div principal.Base.Int.◌*ℤ◌ principal.Base.Int.quot_ℤ
    principal.Base.Balances.set_amount
second_deposit_runs = refl

abbrev less : Joint simple
less = commit funded (Sy.withdraw simple views (signed_by 5 100) 5 (pos 50) 6 funded)

withdraw_runs : Sy.withdraw simple views (signed_by 5 100) 5 (pos 50) 6 funded ≡ ok (pos 50, less)
unfolding Sy.withdraw Sy.withdraw_effects Sy.deposit Sy.deposit_effects Sy.initialize
    Sy.underlying_to_shares principal.Host.checked principal.Host.in_i128 principal.Base.Int.◌+ℤ◌
    principal.Base.Balances.get_amount principal.Base.Balances.set_amount Sy.shares_to_underlying
    exchange_rate principal.Host.mul_div principal.Base.Int.◌*ℤ◌ principal.Base.Int.quot_ℤ
    principal.Base.Int.◌-ℤ◌
withdraw_runs = refl

abbrev sent : State
sent = commit funded.0 (Sy.transfer views (signed_by 5 100) 5 6 (pos 10) funded.0)

transfer_runs : Sy.transfer views (signed_by 5 100) 5 6 (pos 10) funded.0 ≡ ok (pos 10, sent)
unfolding Sy.transfer Sy.deposit Sy.deposit_effects Sy.initialize Sy.underlying_to_shares
    principal.Host.checked principal.Host.in_i128 principal.Base.Int.◌+ℤ◌
    principal.Base.Balances.get_amount principal.Base.Balances.set_amount principal.Base.Int.◌-ℤ◌
transfer_runs = refl
