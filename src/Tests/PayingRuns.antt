-- ===== src/Tests/PayingRuns.antt =====
-- A redemption of PT that nothing stops.
use principal.Base.{◌≡◌, refl, arith, true}
use principal.Base.Int.{pos}
use principal.Base.Balances.{get_amount}
use principal.Host.{ok, called_by}
use principal.Token.Simple.{simple, moved}
use principal.Sy
use principal.Sy.Redemption.{CanWithdraw}
use principal.Pt
use principal.Manager
use principal.Manager.Paying.{CanBurn, CanRedeem, redeemed_world, redeem_runs}
use principal.Tests.Market as Setting
use principal.Tests.Market.{wrapper, wrapper-IsSound, pt_token}
use principal.Tests.ManagerRuns.{views, start, later}

can_burn : CanBurn 200 5 49 50 100 pt_token
unfolding Pt.total_supply get_amount
can_burn = record {
  has_minter = refl;
  held = refl;
  enough = omega arith;
  total = refl;
  part = omega arith;
  fits = omega arith;
}

abbrev can_withdraw : CanWithdraw views (called_by later 100) 200 5 47 1000 100 wrapper
unfolding Sy.total_shares get_amount
can_withdraw = record {
  sound = wrapper-IsSound;
  signed = refl;
  running = refl;
  from_cleared = record {
    asset = 20;
    registry = 30;
    underlying = refl;
    permissioning = refl;
    on_sac = refl;
    permitted = refl;
  };
  to_cleared = record {
    asset = 20;
    registry = 30;
    underlying = refl;
    permissioning = refl;
    on_sac = refl;
    permitted = refl;
  };
  total = refl;
  fits = omega arith;
  held = refl;
  enough = omega arith;
}

abbrev can_redeem :
    CanRedeem simple views later 5 49 10299999 47 start (moved 20 100 5 48 Setting.units)
unfolding can_withdraw
can_redeem = record {
  answers = record {
    oracle = 60;
    registry = 30;
    asset = 20;
    end_of_term = 5000;
    fresh = true;
    on_sac = true;
    permitted = true;
    has_oracle = refl;
    has_permissioning = refl;
    has_underlying = refl;
    has_maturity = refl;
    says_fresh = refl;
    says_on_sac = refl;
    says_permitted = refl;
  };
  open_now = refl;
  quoted = refl;
  priced = refl;
  fits = omega arith;
  sy = 100;
  pt = 70;
  wrapper = wrapper;
  principal_token = pt_token;
  shares = 1000;
  manager_shares = 100;
  held = 50;
  supply = 100;
  has_sy = refl;
  has_pt = refl;
  sy_at = refl;
  pt_at = refl;
  can_burn = can_burn;
  can_withdraw = can_withdraw;
  pays = refl;
}

redeem_runs_example :
    Manager.redeem simple views later 5 (pos 50) (pos 0) start
    ≡ ok (
      record { underlying_from_pt = pos 48; underlying_from_yt = pos 0 },
      (
        start.0,
        redeemed_world simple views later 5 49 10299999 47 start
            (moved 20 100 5 48 Setting.units)
            can_redeem,
      ),
    )
redeem_runs_example =
    redeem_runs simple views later 5 49 10299999 47 start (moved 20 100 5 48 Setting.units)
      can_redeem
