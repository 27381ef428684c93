-- ===== src/Sy/Effects.antt =====
-- What each successful entry point of SYWrapper has checked and has written.
use principal.Base.{ℕ, ◌≡◌, true, false, some, arith, unwrap_or}
use principal.Base.Int.{ℤ, pos, ◌≤ℤ◌, ◌+ℤ◌, ◌-ℤ◌}
use principal.Base.Balances.{get_amount, take_off, put_on, move}
use principal.Host.{Env, Views, ok, is_authorized, checked_cases}
use principal.Sy.Store.{
  State, total_underlying, total_shares, underlying_to_shares, shares_to_underlying,
}
use principal.Sy.Entry.{transfer, deposit_effects, withdraw_effects, seize}

-- Both compliance layers have let the account pass.
pub record IsCleared (views : Views) (s : State) (account : ℕ) : Type 0 where
  pub asset : ℕ
  pub registry : ℕ
  pub underlying : s.underlying ≡ some asset
  pub permissioning : s.permissioning ≡ some registry
  pub on_sac : views.sac_authorized asset account ≡ ok true
  pub permitted : views.is_allowed registry account ≡ ok true

pub record Transferred (views : Views) (env : Env) (from to : ℕ) (amount : ℤ) (s s' : State)
    : Type 0 where
  pub signed : is_authorized env from ≡ true
  pub running : unwrap_or s.paused false ≡ false
  pub from_cleared : IsCleared views s from
  pub to_cleared : IsCleared views s to
  pub positive : pos 1 ≤ℤ amount
  pub covered : amount ≤ℤ get_amount s.balances from
  pub moved : s' ≡ record s { balances = move s.balances from to amount }

module _ (views : Views) (env : Env) where
  -- A transfer that succeeds was signed by the sender of a wrapper that is not paused, has cleared
  -- both accounts on both layers, returns its amount, and moves it, a positive amount that the
  -- sender has; nothing else changes.
  pub transfer_ok :
      (from to : ℕ) (amount result : ℤ) (s s' : State)
      → transfer views env from to amount s ≡ ok (result, s')
      → Transferred views env from to amount s s' × (result ≡ amount)
  unfolding transfer move
  transfer_ok from to amount result s s' h = (
    record {
      signed = ground arith;
      running = ground arith;
      from_cleared = record {
        asset = unwrap_or s.underlying 0;
        registry = unwrap_or s.permissioning 0;
        underlying = ground arith;
        permissioning = ground arith;
        on_sac = ground arith;
        permitted = ground arith;
      };
      to_cleared = record {
        asset = unwrap_or s.underlying 0;
        registry = unwrap_or s.permissioning 0;
        underlying = ground arith;
        permissioning = ground arith;
        on_sac = ground arith;
        permitted = ground arith;
      };
      positive = ground arith;
      covered = ground arith;
      moved = ground (
        arith,
        checked_cases (get_amount s.balances from -ℤ amount),
        checked_cases (get_amount (take_off s.balances from amount) to +ℤ amount),
      );
    },
    ground arith,
  )

pub record Deposited (views : Views) (env : Env) (from : ℕ) (amount : ℤ) (s s' : State)
    (out : ℕ × ℤ) : Type 0 where
  pub signed : is_authorized env from ≡ true
  pub running : unwrap_or s.paused false ≡ false
  pub from_cleared : IsCleared views s from
  pub positive : pos 1 ≤ℤ amount
  pub shares : pos 1 ≤ℤ out.1
  pub asset : s.underlying ≡ some out.0
  pub computed : underlying_to_shares amount s ≡ ok out.1
  pub effects : s' ≡ record s {
    total_underlying = some (total_underlying s +ℤ amount);
    total_shares = some (total_shares s +ℤ out.1);
    balances = put_on s.balances from out.1;
  }

pub record Withdrawn (views : Views) (env : Env) (from to : ℕ) (shares : ℤ) (s s' : State)
    (out : ℕ × ℤ) : Type 0 where
  pub signed : is_authorized env from ≡ true
  pub running : unwrap_or s.paused false ≡ false
  pub from_cleared : IsCleared views s from
  pub to_cleared : IsCleared views s to
  pub positive : pos 1 ≤ℤ shares
  pub paid : pos 1 ≤ℤ out.1
  pub covered : shares ≤ℤ get_amount s.balances from
  pub asset : s.underlying ≡ some out.0
  pub computed : shares_to_underlying shares s ≡ ok out.1
  pub effects : s' ≡ record s {
    total_underlying = some (total_underlying s -ℤ out.1);
    total_shares = some (total_shares s -ℤ shares);
    balances = take_off s.balances from shares;
  }

pub record Seized (env : Env) (caller account : ℕ) (shares : ℤ) (s s' : State) : Type 0 where
  pub signed : is_authorized env caller ≡ true
  pub by_escrow : s.recovery_escrow ≡ some caller
  pub positive : pos 1 ≤ℤ shares
  pub covered : shares ≤ℤ get_amount s.balances account
  pub moved : s' ≡ record s { balances = move s.balances account caller shares }

module _ (views : Views) (env : Env) where
  pub deposit_effects_ok :
      (from : ℕ) (amount : ℤ) (out : ℕ × ℤ) (s s' : State)
      → deposit_effects views env from amount s ≡ ok (out, s')
      → Deposited views env from amount s s' out
  unfolding deposit_effects total_underlying total_shares
  deposit_effects_ok from amount (asset, shares) s s' h = record {
    signed = ground arith;
    running = ground arith;
    from_cleared = record {
      asset = unwrap_or s.underlying 0;
      registry = unwrap_or s.permissioning 0;
      underlying = ground arith;
      permissioning = ground arith;
      on_sac = ground arith;
      permitted = ground arith;
    };
    positive = ground arith;
    shares = ground arith;
    asset = ground arith;
    computed = ground arith;
    effects = ground (
      arith,
      checked_cases (unwrap_or s.total_underlying (pos 0) +ℤ amount),
      checked_cases (unwrap_or s.total_shares (pos 0) +ℤ shares),
      checked_cases (get_amount s.balances from +ℤ shares),
    );
  }

  pub withdraw_effects_ok :
      (from to : ℕ) (shares : ℤ) (out : ℕ × ℤ) (s s' : State)
      → withdraw_effects views env from shares to s ≡ ok (out, s')
      → Withdrawn views env from to shares s s' out
  unfolding withdraw_effects total_underlying total_shares
  withdraw_effects_ok from to shares (asset, amount) s s' h = record {
    signed = ground arith;
    running = ground arith;
    from_cleared = record {
      asset = unwrap_or s.underlying 0;
      registry = unwrap_or s.permissioning 0;
      underlying = ground arith;
      permissioning = ground arith;
      on_sac = ground arith;
      permitted = ground arith;
    };
    to_cleared = record {
      asset = unwrap_or s.underlying 0;
      registry = unwrap_or s.permissioning 0;
      underlying = ground arith;
      permissioning = ground arith;
      on_sac = ground arith;
      permitted = ground arith;
    };
    positive = ground arith;
    paid = ground arith;
    covered = ground arith;
    asset = ground arith;
    computed = ground arith;
    effects = ground (
      arith,
      checked_cases (unwrap_or s.total_underlying (pos 0) -ℤ amount),
      checked_cases (unwrap_or s.total_shares (pos 0) -ℤ shares),
      checked_cases (get_amount s.balances from -ℤ shares),
    );
  }

module _ (env : Env) where
  pub seize_ok :
      (caller account : ℕ) (shares result : ℤ) (s s' : State)
      → seize env caller account shares s ≡ ok (result, s')
      → Seized env caller account shares s s' × (result ≡ shares)
  unfolding seize move
  seize_ok caller account shares result s s' h = (
    record {
      signed = ground arith;
      by_escrow = ground arith;
      positive = ground arith;
      covered = ground arith;
      moved = ground (
        arith,
        checked_cases (get_amount s.balances account -ℤ shares),
        checked_cases (get_amount (take_off s.balances account shares) caller +ℤ shares),
      );
    },
    ground arith,
  )
