-- ===== src/Yt/Accrual.antt =====
-- YTToken: the yield index, and the settlement of an account against it.
use principal.Base.{ℕ, not, some, ◌==◌, unwrap_or, put, if◌then◌else◌}
use principal.Base.Int.{ℤ, pos, ltb_ℤ}
use principal.Base.Balances.{get_amount, set_amount}
use principal.Host.{
  Env, Views, M, pure, lift, gets, modify, panic_if, ◌>>=◌, ◌>>◌, require_auth, ◌+?◌, ◌-?◌, mul_div,
}
use principal.Host.Errors.{YtError, yt}
use principal.Yt.Store.{State, scale, max_oracle_staleness_secs, oracle_address, require_minter}

-- The part of `update_yield_index` under `if now_rate > last_rate`.
unfoldable pub advance_index : ℤ → ℤ → M State Unit
advance_index now_rate last_rate = do
  factor ← gets (λ s. unwrap_or s.yield_index scale)
  new_factor ← lift (mul_div factor last_rate now_rate)
  modify (λ s. record s { yield_index = some new_factor; last_oracle_rate = some now_rate })

unfoldable pub update_yield_index : Views → M State Unit
unfolding oracle_address
update_yield_index views = do
  oracle ← oracle_address
  fresh ← lift (views.is_fresh oracle max_oracle_staleness_secs)
  panic_if (not fresh) (yt YtError.oracle_stale)
  now_rate ← lift (views.get_reference_value oracle)
  last_rate ← gets (λ s. unwrap_or s.last_oracle_rate scale)
  if ltb_ℤ last_rate now_rate then advance_index now_rate last_rate else pure tt

-- What `settle` adds under `if pending > 0`.
unfoldable pub add_pending : ℕ → ℤ → M State Unit
add_pending account pending = do
  acc ← gets (λ s. get_amount s.pending_claim account)
  more ← lift (acc +? pending)
  modify (λ s. record s { pending_claim = set_amount s.pending_claim account more })

-- What `settle` computes under `if bal > 0`.
unfoldable pub accrue : ℕ → ℤ → ℤ → ℤ → M State Unit
accrue account factor last bal = do
  drop ← lift (last -? factor)
  pending ← lift (mul_div bal drop last)
  if ltb_ℤ (pos 0) pending then add_pending account pending else pure tt

-- The part of `settle` under `if factor < last`.
unfoldable pub settle_pending : ℕ → ℤ → ℤ → M State Unit
settle_pending account factor last = do
  bal ← gets (λ s. get_amount s.balances account)
  if ltb_ℤ (pos 0) bal then accrue account factor last bal else pure tt

unfoldable pub settle : ℕ → M State Unit
settle account = do
  factor ← gets (λ s. unwrap_or s.yield_index scale)
  last ← gets (λ s. unwrap_or (s.last_claimed_index account) scale)
  if ltb_ℤ factor last then settle_pending account factor last else pure tt
  modify (λ s. record s { last_claimed_index = put s.last_claimed_index account factor })

unfoldable pub claim_yield : Env → ℕ → ℕ → M State ℤ
unfolding require_minter
claim_yield env caller from = do
  require_auth env caller
  minter ← require_minter
  panic_if (not (caller == minter)) (yt YtError.unauthorized)
  settle from
  amount ← gets (λ s. get_amount s.pending_claim from)
  modify (λ s. record s { pending_claim = set_amount s.pending_claim from (pos 0) })
  pure amount
