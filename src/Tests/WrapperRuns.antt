-- ===== src/Tests/WrapperRuns.antt =====
-- Deposits and withdrawals that nothing stops.
use principal.Base.{◌≡◌, refl, arith, ◌==◌, if◌then◌else◌}
use principal.Base.Int.{pos}
use principal.Base.Balances.{get_amount}
use principal.Host.{Views, ok}
use principal.Token.Simple.{simple, Amounts, moved}
use principal.Sy
use principal.Sy.Totality.{CanDeposit, deposited, deposit_runs}
use principal.Sy.Roundtrip.{Restored, deposit-withdraw}
use principal.Ledger.Steps.{Same}
use principal.Sy.Redemption.{CanWithdraw, withdrawn, withdraw_runs}
use principal.Tests.Fixtures.{signed_by, views_at}
use principal.Tests.Market.{wrapper, wrapper-IsSound}

abbrev views : Views
views = views_at (pos 10000000)

abbrev units : Amounts
units asset a = if asset == 20 then 2000 else 0

can_deposit : CanDeposit views (signed_by 5 100) 5 39 1000 wrapper
unfolding Sy.total_shares
can_deposit = record {
  sound = wrapper-IsSound;
  signed = refl;
  running = refl;
  cleared = record {
    asset = 20;
    registry = 30;
    underlying = refl;
    permissioning = refl;
    on_sac = refl;
    permitted = refl;
  };
  total = refl;
  fits = omega arith;
}

held : get_amount wrapper.balances 5 ≡ pos 600
unfolding get_amount
held = refl

deposit_runs_example :
    Sy.deposit simple views (signed_by 5 100) 5 (pos 40) (wrapper, units)
    ≡ ok (pos 40, (deposited 5 39 wrapper, moved 20 5 100 40 units))
unfolding can_deposit
deposit_runs_example =
    deposit_runs simple views (signed_by 5 100) 5 39 1000 600 wrapper units
      (moved 20 5 100 40 units) can_deposit held (omega arith) refl

can_withdraw : CanWithdraw views (signed_by 5 100) 5 6 49 1000 600 wrapper
unfolding Sy.total_shares
can_withdraw = record {
  sound = wrapper-IsSound;
  signed = refl;
  running = refl;
  from_cleared = record {
    asset = 20;
    registry = 30;
    underlying = refl;
    permissioning = refl;
    on_sac = refl;
    permitted = refl;
  };
  to_cleared = record {
    asset = 20;
    registry = 30;
    underlying = refl;
    permissioning = refl;
    on_sac = refl;
    permitted = refl;
  };
  total = refl;
  fits = omega arith;
  held = held;
  enough = omega arith;
}

withdraw_runs_example :
    Sy.withdraw simple views (signed_by 5 100) 5 (pos 50) 6 (wrapper, units)
    ≡ ok (pos 50, (withdrawn 5 49 wrapper, moved 20 100 6 50 units))
unfolding can_withdraw
withdraw_runs_example =
    withdraw_runs simple views (signed_by 5 100) 5 6 49 1000 600 wrapper units
      (moved 20 100 6 50 units) can_withdraw refl

total_runs : Sy.total_shares wrapper ≡ pos 1000
unfolding Sy.total_shares
total_runs = refl

deposit_lem :
    Sy.deposit simple views (signed_by 5 100) 5 (pos 40) (wrapper, units)
    ≡ ok (pos 40, (deposited 5 39 wrapper, moved 20 5 100 40 units))
unfolding can_deposit
deposit_lem =
    deposit_runs simple views (signed_by 5 100) 5 39 1000 600 wrapper units
      (moved 20 5 100 40 units) can_deposit held (omega arith) refl

-- 40 units in, and out again.
abbrev back : Amounts
back = moved 20 100 5 40 (moved 20 5 100 40 units)

deposit-withdraw_example :
    (Sy.withdraw simple views
        (signed_by 5 100)
        5
        (pos 40)
        5
        (deposited 5 39 wrapper, moved 20 5 100 40 units)
      ≡ ok (pos 40, (withdrawn 5 39 (deposited 5 39 wrapper), back)))
    × Restored wrapper (withdrawn 5 39 (deposited 5 39 wrapper))
    × Same (λ a. pos (back 20 a)) (λ a. pos (units 20 a))
deposit-withdraw_example =
    deposit-withdraw simple views (signed_by 5 100) 5 39 1000 (pos 40) wrapper
      (deposited 5 39 wrapper) units (moved 20 5 100 40 units) back wrapper-IsSound total_runs
      (omega arith) deposit_lem refl
