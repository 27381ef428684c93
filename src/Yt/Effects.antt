-- ===== src/Yt/Effects.antt =====
-- What each successful transfer of YTToken has checked and has written.
use principal.Base.{ℕ, ◌≡◌, ◌≤◌, ◌⊎◌, inl, inr, refl, true, some, arith, unwrap_or}
use principal.Base.Int.{ℤ, pos, ◌≤ℤ◌, ◌+ℤ◌, ◌-ℤ◌}
use principal.Base.Balances.{get_amount, take_off, move}
use principal.Allowance.{get_allowance, set_allowance}
use principal.Host.{Env, Views, ok, is_authorized, checked_cases}
use principal.Yt.Store.{State}
use principal.Yt.Entry.{transfer, transfer_from}
use principal.Yt.Settle.{settled, settled-frame, settled-allowances}
use principal.Yt.Accrual.{settle}

-- Every compliance layer has let the account pass.
pub record IsCleared (views : Views) (env : Env) (s : State) (account : ℕ) : Type 0 where
  pub asset : ℕ
  pub registry : ℕ
  pub underlying : s.underlying ≡ some asset
  pub permissioning : s.permissioning ≡ some registry
  pub on_sac : views.sac_authorized asset account ≡ ok true
  pub permitted : views.is_allowed registry account ≡ ok true
  pub permitted_for_asset : views.is_allowed_for_asset registry account env.current ≡ ok true

-- Both accounts are settled, the sender first; then a positive amount that is covered goes from one
-- to the other, and nothing else changes but the allowances.
pub record Moved (from to : ℕ) (amount : ℤ) (s s' : State) : Type 0 where
  pub positive : pos 1 ≤ℤ amount
  pub covered : amount ≤ℤ get_amount s.balances from
  pub from_settles : settle from s ≡ ok (tt, settled from s)
  pub to_settles : settle to (settled from s) ≡ ok (tt, settled to (settled from s))
  pub moved : s' ≡ record (settled to (settled from s)) {
    balances = move s.balances from to amount;
    allowances = s'.allowances;
  }

pub record Transferred (views : Views) (env : Env) (from to : ℕ) (amount : ℤ) (s s' : State)
    : Type 0 where
  pub from_cleared : IsCleared views env s from
  pub to_cleared : IsCleared views env s to
  pub move : Moved from to amount s s'

-- What the allowance has let through.
pub record Spent (env : Env) (from spender : ℕ) (amount : ℤ) (s s' : State) : Type 0 where
  pub allowed : amount ≤ℤ (get_allowance s.allowances from spender).amount
  pub not_expired : env.sequence ≤ (get_allowance s.allowances from spender).expiration_ledger
  pub spent :
      s'.allowances
      ≡ set_allowance s.allowances from spender
          ((get_allowance s.allowances from spender).amount -ℤ amount)
          (get_allowance s.allowances from spender).expiration_ledger

module _ (views : Views) (env : Env) (from to : ℕ) (amount : ℤ) (s s' : State) where
  transfer-Moved : transfer views env from to amount s ≡ ok (tt, s') → Moved from to amount s s'
  unfolding transfer move
  transfer-Moved h = record {
    positive = ground arith;
    covered = ground arith;
    from_settles = ground arith;
    to_settles = ground arith;
    moved = ground (
      arith,
      settled-frame from s,
      settled-frame to (settled from s),
      checked_cases (get_amount s.balances from -ℤ amount),
      checked_cases (get_amount (take_off s.balances from amount) to +ℤ amount),
    );
  }

  transfer-IsCleared :
      (a : ℕ)
      → ((a ≡ from) ⊎ (a ≡ to))
      → transfer views env from to amount s ≡ ok (tt, s')
      → IsCleared views env s a
  unfolding transfer
  transfer-IsCleared a side h = record {
    asset = unwrap_or s.underlying 0;
    registry = unwrap_or s.permissioning 0;
    underlying = ground arith;
    permissioning = ground arith;
    on_sac = ground arith;
    permitted = ground arith;
    permitted_for_asset = ground arith;
  }

  -- A transfer that succeeds was signed by the sender, has cleared both accounts on every layer,
  -- and settles both before it moves a positive amount that the sender has; the allowances stay.
  pub transfer_ok :
      transfer views env from to amount s ≡ ok (tt, s')
      → (is_authorized env from ≡ true)
        × Transferred views env from to amount s s'
        × (s'.allowances ≡ s.allowances)
  unfolding transfer
  transfer_ok h = (
    ground arith,
    record {
      from_cleared = transfer-IsCleared from (inl refl) h;
      to_cleared = transfer-IsCleared to (inr refl) h;
      move = transfer-Moved h;
    },
    ground (
      arith,
      settled-allowances from s,
      settled-allowances to (settled from s),
      checked_cases (get_amount s.balances from -ℤ amount),
      checked_cases (get_amount (take_off s.balances from amount) to +ℤ amount),
    ),
  )

module _ (views : Views) (env : Env) (spender from to : ℕ) (amount : ℤ) (s s' : State) where
  transfer_from-Moved :
      transfer_from views env spender from to amount s ≡ ok (tt, s') → Moved from to amount s s'
  unfolding transfer_from move
  transfer_from-Moved h = record {
    positive = ground arith;
    covered = ground arith;
    from_settles = ground arith;
    to_settles = ground arith;
    moved = ground (
      arith,
      settled-frame from s,
      settled-frame to (settled from s),
      checked_cases (get_amount s.balances from -ℤ amount),
      checked_cases (get_amount (take_off s.balances from amount) to +ℤ amount),
      checked_cases ((get_allowance s.allowances from spender).amount -ℤ amount),
    );
  }

  transfer_from-IsCleared :
      (a : ℕ)
      → ((a ≡ from) ⊎ (a ≡ to))
      → transfer_from views env spender from to amount s ≡ ok (tt, s')
      → IsCleared views env s a
  unfolding transfer_from
  transfer_from-IsCleared a side h = record {
    asset = unwrap_or s.underlying 0;
    registry = unwrap_or s.permissioning 0;
    underlying = ground arith;
    permissioning = ground arith;
    on_sac = ground arith;
    permitted = ground arith;
    permitted_for_asset = ground arith;
  }

  transfer_from-Spent :
      transfer_from views env spender from to amount s ≡ ok (tt, s')
      → Spent env from spender amount s s'
  unfolding transfer_from
  transfer_from-Spent h = record {
    allowed = ground arith;
    not_expired = ground arith;
    spent = ground (
      arith,
      settled-allowances from s,
      settled-allowances to (settled from s),
      checked_cases (get_amount s.balances from -ℤ amount),
      checked_cases (get_amount (take_off s.balances from amount) to +ℤ amount),
      checked_cases ((get_allowance s.allowances from spender).amount -ℤ amount),
    );
  }

  -- A transfer by a spender that succeeds was signed by the spender, has cleared both accounts, and
  -- takes from an allowance that covers the amount and has not expired exactly what it moves.
  pub transfer_from_ok :
      transfer_from views env spender from to amount s ≡ ok (tt, s')
      → (is_authorized env spender ≡ true)
        × Transferred views env from to amount s s'
        × Spent env from spender amount s s'
  unfolding transfer_from
  transfer_from_ok h = (
    ground arith,
    record {
      from_cleared = transfer_from-IsCleared from (inl refl) h;
      to_cleared = transfer_from-IsCleared to (inr refl) h;
      move = transfer_from-Moved h;
    },
    transfer_from-Spent h,
  )
