-- ===== src/Tests/Market.antt =====
-- A market for the runs: wrapper 100 of the asset 20, PT 70, YT 80, manager 200 and escrow 300.
use principal.Base.{ℕ, [], ◌∷◌, none, some, false, ◌==◌, ◌&&◌, if◌then◌else◌, refl, arith}
use principal.Base.Int.{ℤ, pos}
use principal.Token.Simple.{simple, Amounts}
use principal.World.{World}
use principal.Sy
use principal.Sy.Soundness.{IsSound}
use principal.Pt
use principal.Yt
use principal.Manager
use principal.Escrow

abbrev pub units : Amounts
units asset a = if asset == 20 && a == 100 then 1000 else 0

abbrev pub wrapper : Sy.State
wrapper = record {
  admin = some 1;
  underlying = some 20;
  permissioning = some 30;
  recovery_escrow = some 300;
  total_underlying = some (pos 1000);
  total_shares = some (pos 1000);
  balances = (5, pos 600) ∷ (6, pos 300) ∷ (200, pos 100) ∷ [];
  paused = some false;
}

pub wrapper-IsSound : IsSound wrapper
unfolding Sy.total_shares Sy.total_underlying principal.Base.Balances.sum principal.Base.Int.◌+ℤ◌
wrapper-IsSound = record {
  equal = refl;
  total_nonneg = omega arith;
  summed = refl;
  nonneg = (omega arith, (omega arith, (omega arith, tt)));
  fresh = tt;
}

abbrev pub pt_token : Pt.State
pt_token = record {
  admin = some 1;
  minter = some 200;
  permissioning = some 30;
  underlying = some 20;
  recovery_escrow = some 300;
  maturity = some 5000;
  name = some "PT";
  symbol = some "PT";
  decimals = some 7;
  total_supply = some (pos 100);
  balances = (5, pos 50) ∷ (6, pos 10) ∷ (300, pos 40) ∷ [];
  allowances = λ owner spender. none;
}

abbrev pub yt_token : Yt.State
yt_token = record {
  admin = some 1;
  minter = some 200;
  permissioning = some 30;
  underlying = some 20;
  recovery_escrow = some 300;
  oracle = some 60;
  maturity = some 5000;
  name = some "YT";
  symbol = some "YT";
  decimals = some 7;
  total_supply = some (pos 100);
  balances = (5, pos 60) ∷ (6, pos 40) ∷ [];
  allowances = λ owner spender. none;
  yield_index = some (pos 10000000);
  last_oracle_rate = some (pos 10000000);
  last_claimed_index = λ a. none;
  pending_claim = [];
}

abbrev pub contracts : World simple
contracts = record {
  sys = λ a. if a == 100 then some wrapper else none;
  pts = λ a. if a == 70 then some pt_token else none;
  yts = λ a. if a == 80 then some yt_token else none;
  ledger = units;
}

abbrev pub manager : Manager.State
manager = record {
  admin = some 1;
  sy_wrapper = some 100;
  pt_token = some 70;
  yt_token = some 80;
  oracle = some 60;
  permissioning = some 30;
  underlying = some 20;
  maturity = some 5000;
  paused = some false;
}

abbrev pub escrow : Escrow.State
escrow = record {
  underlying = some 20;
  sy_wrapper = some 100;
  pt_token = some 70;
  yt_token = some 80;
  principal_manager = some 200;
}
