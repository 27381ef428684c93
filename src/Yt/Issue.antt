-- ===== src/Yt/Issue.antt =====
-- What a successful mint, burn or seizure of YTToken has checked and has written.
use principal.Base.{ℕ, ◌≡◌, true, some, arith, unwrap_or}
use principal.Base.Int.{ℤ, pos, ◌≤ℤ◌, ◌+ℤ◌, ◌-ℤ◌}
use principal.Base.Balances.{get_amount, take_off, put_on, move}
use principal.Host.{Env, Views, ok, is_authorized, checked_cases}
use principal.Yt.Store.{State, total_supply}
use principal.Yt.Entry.{mint, burn, seize}
use principal.Yt.Settle.{settled, settled-frame, settled-allowances}
use principal.Yt.Accrual.{settle}
use principal.Yt.Effects.{IsCleared, Moved}

pub record Minted (views : Views) (env : Env) (to : ℕ) (amount : ℤ) (s s' : State) : Type 0 where
  pub minter : ℕ
  pub registered : s.minter ≡ some minter
  pub signed : is_authorized env minter ≡ true
  pub to_cleared : IsCleared views env s to
  pub to_settles : settle to s ≡ ok (tt, settled to s)
  pub positive : pos 1 ≤ℤ amount
  pub effects : s' ≡ record (settled to s) {
    balances = put_on s.balances to amount;
    total_supply = some (total_supply s +ℤ amount);
  }

pub record Burned (env : Env) (from : ℕ) (amount : ℤ) (s s' : State) : Type 0 where
  pub minter : ℕ
  pub registered : s.minter ≡ some minter
  pub signed : is_authorized env minter ≡ true
  pub positive : pos 1 ≤ℤ amount
  pub covered : amount ≤ℤ get_amount s.balances from
  pub from_settles : settle from s ≡ ok (tt, settled from s)
  pub effects : s' ≡ record (settled from s) {
    balances = take_off s.balances from amount;
    total_supply = some (total_supply s -ℤ amount);
  }

module _ (env : Env) (s s' : State) where
  pub mint_ok :
      (views : Views) (to : ℕ) (amount : ℤ)
      → mint views env to amount s ≡ ok (tt, s')
      → Minted views env to amount s s'
  unfolding mint total_supply
  mint_ok views to amount h = record {
    minter = unwrap_or s.minter 0;
    registered = ground arith;
    signed = ground arith;
    to_cleared = record {
      asset = unwrap_or s.underlying 0;
      registry = unwrap_or s.permissioning 0;
      underlying = ground arith;
      permissioning = ground arith;
      on_sac = ground arith;
      permitted = ground arith;
      permitted_for_asset = ground arith;
    };
    to_settles = ground arith;
    positive = ground arith;
    effects = ground (
      arith,
      settled-frame to s,
      checked_cases (get_amount s.balances to +ℤ amount),
      checked_cases (unwrap_or s.total_supply (pos 0) +ℤ amount),
    );
  }

  pub burn_ok :
      (from : ℕ) (amount : ℤ) → burn env from amount s ≡ ok (tt, s') → Burned env from amount s s'
  unfolding burn total_supply
  burn_ok from amount h = record {
    minter = unwrap_or s.minter 0;
    registered = ground arith;
    signed = ground arith;
    positive = ground arith;
    covered = ground arith;
    from_settles = ground arith;
    effects = ground (
      arith,
      settled-frame from s,
      checked_cases (get_amount s.balances from -ℤ amount),
      checked_cases (unwrap_or s.total_supply (pos 0) -ℤ amount),
    );
  }

  -- A seizure that succeeds was signed by the configured escrow and, once both are settled, moves
  -- to it a positive amount that the account has; the account signs nothing.
  pub seize_ok :
      (caller account : ℕ) (amount result : ℤ)
      → seize env caller account amount s ≡ ok (result, s')
      → (is_authorized env caller ≡ true)
        × (s.recovery_escrow ≡ some caller)
        × Moved account caller amount s s'
        × (s'.allowances ≡ s.allowances)
        × (result ≡ amount)
  unfolding seize move
  seize_ok caller account amount result h = (
    ground arith,
    ground arith,
    record {
      positive = ground arith;
      covered = ground arith;
      from_settles = ground arith;
      to_settles = ground arith;
      moved = ground (
        arith,
        settled-frame account s,
        settled-frame caller (settled account s),
        checked_cases (get_amount s.balances account -ℤ amount),
        checked_cases (get_amount (take_off s.balances account amount) caller +ℤ amount),
      );
    },
    ground (
      arith,
      settled-allowances account s,
      settled-allowances caller (settled account s),
      checked_cases (get_amount s.balances account -ℤ amount),
      checked_cases (get_amount (take_off s.balances account amount) caller +ℤ amount),
    ),
    ground arith,
  )
