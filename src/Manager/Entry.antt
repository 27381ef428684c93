-- ===== src/Manager/Entry.antt =====
-- PrincipalManager: the entry points that write.
use principal.Base.{ℕ, Bool, false, not, some, ◌&&◌, ◌==◌, is_some, if◌then◌else◌}
use principal.Base.Int.{ℤ, pos, ltb_ℤ, leb_ℤ, is_zero}
use principal.Host.{
  Env, Views, Result, ok, and_then, M, pure, lift, gets, modify, panic_if, ◌>>=◌, ◌>>◌,
  require_auth, mul_div, called_by,
}
use principal.Host.Errors.{ManagerError, manager}
use principal.Token.{Token}
use principal.World.{World, call_sy, call_pt, call_yt, ask_sy, ask_pt, ask_yt, answer}
use principal.Sy
use principal.Pt
use principal.Yt
use principal.Manager.Store.{
  State, MintResult, RedeemResult, scale, get_oracle_rate, assert_oracle_fresh, assert_permitted,
  assert_sac_authorized, get_sy_wrapper, get_pt_token, get_yt_token, underlying_to_shares,
  assert_admin, assert_not_paused, assert_mature, assert_not_mature,
}

unfoldable pub set_paused : Env → ℕ → Bool → M State Unit
unfolding assert_admin
set_paused env caller paused = do
  assert_admin env caller
  modify (λ s. record s { paused = some paused })

unfoldable pub transfer_admin : Env → ℕ → ℕ → M State Unit
unfolding assert_admin
transfer_admin env current_admin new_admin = do
  assert_admin env current_admin
  modify (λ s. record s { admin = some new_admin })

module _ (token : Token) where
  -- The manager together with the contracts that it calls.
  abbrev pub Joint : Type 0
  Joint = State × World token

  -- A step on the manager's own storage.
  abbrev pub own : {A : Type 0} → M State A → M Joint A
  own f j = and_then (f j.0) (λ r. ok (r.0, (r.1, j.1)))

  -- A call of another contract.
  abbrev pub call : {A : Type 0} → M (World token) A → M Joint A
  call f j = and_then (f j.1) (λ r. ok (r.0, (j.0, r.1)))

  abbrev pub ask : {A : Type 0} → (World token → Result A) → M Joint A
  ask f j = and_then (f j.1) (λ a. ok (a, j))

  -- `if a != expected { panic }` for the answer of a view; `||` of the source stops at the first
  -- that differs, and every one panics alike.
  abbrev pub expect : ℕ → (World token → Result ℕ) → M Joint Unit
  expect expected view = do
    a ← ask view
    panic_if (not (a == expected)) (manager ManagerError.topology_mismatch)

  unfoldable pub assert_topology_matches : ℕ → ℕ → ℕ → ℕ → ℕ → ℕ → ℕ → M Joint Unit
  assert_topology_matches sy_wrapper pt_token yt_token oracle permissioning underlying maturity = do
    expect underlying (ask_sy token sy_wrapper (answer Sy.get_underlying))
    expect underlying (ask_pt token pt_token (answer Pt.underlying_address))
    expect underlying (ask_yt token yt_token (answer Yt.underlying_address))
    expect permissioning (ask_sy token sy_wrapper (answer Sy.permissioning_address))
    expect permissioning (ask_pt token pt_token (answer Pt.permissioning_address))
    expect permissioning (ask_yt token yt_token (answer Yt.permissioning_address))
    expect maturity (ask_pt token pt_token (answer Pt.maturity))
    expect maturity (ask_yt token yt_token (answer Yt.maturity))
    expect oracle (ask_yt token yt_token (answer Yt.oracle_address))

  unfoldable pub initialize : Views → Env → ℕ → ℕ → ℕ → ℕ → ℕ → ℕ → ℕ → ℕ → M Joint Unit
  unfolding assert_topology_matches
  initialize views env admin sy_wrapper pt_token yt_token oracle permissioning underlying maturity =
      do
        initialized ← gets (λ j. is_some (State.admin (j.0)))
        panic_if initialized (manager ManagerError.already_initialized)
        require_auth env admin
        sac_admin ← lift (views.sac_admin underlying)
        panic_if (not (admin == sac_admin)) (manager ManagerError.issuer_mismatch)
        assert_topology_matches sy_wrapper pt_token yt_token oracle permissioning underlying
            maturity
        own (
            modify (λ s. record s {
              admin = some admin;
              sy_wrapper = some sy_wrapper;
              pt_token = some pt_token;
              yt_token = some yt_token;
              oracle = some oracle;
              permissioning = some permissioning;
              underlying = some underlying;
              maturity = some maturity;
              paused = some false;
            }))

  -- A call of the wrapper that calls no token.
  abbrev pub sy_only : {A : Type 0} → M Sy.State A → M (Sy.Joint token) A
  sy_only f j = and_then (f j.0) (λ r. ok (r.0, (r.1, j.1)))

  -- The calls that `mint` makes once it knows the notional.
  unfoldable pub mint_calls : Views → Env → ℕ → ℤ → ℤ → M Joint MintResult
  unfolding get_sy_wrapper get_pt_token get_yt_token
  mint_calls views env from sy_shares notional = do
    sy_wrapper ← own get_sy_wrapper
    taken ← call (
        call_sy token sy_wrapper
          (sy_only (Sy.transfer views (called_by env sy_wrapper) from env.current sy_shares)))
    pt_token ← own get_pt_token
    yt_token ← own get_yt_token
    call (call_yt token yt_token (Yt.update_yield_index views))
    call (call_pt token pt_token (Pt.mint views (called_by env pt_token) from notional))
    call (call_yt token yt_token (Yt.mint views (called_by env yt_token) from notional))
    pure (record { pt_minted = notional; yt_minted = notional })

  unfoldable pub mint : Views → Env → ℕ → ℤ → M Joint MintResult
  unfolding assert_not_paused assert_not_mature assert_oracle_fresh assert_sac_authorized
      assert_permitted get_oracle_rate
  mint views env from sy_shares = do
    require_auth env from
    own assert_not_paused
    own (assert_not_mature env)
    own (assert_oracle_fresh views)
    panic_if (leb_ℤ sy_shares (pos 0)) (manager ManagerError.zero_amount)
    own (assert_sac_authorized views from)
    own (assert_permitted views from)
    rate ← own (get_oracle_rate views)
    notional ← lift (mul_div sy_shares rate scale)
    mint_calls views env from sy_shares notional

  -- `sy_client.withdraw` of the shares for an underlying amount, at the wrapper's current rate.
  unfoldable pub pay_out : Views → Env → ℕ → ℕ → ℤ → M Joint ℤ
  unfolding underlying_to_shares
  pay_out views env sy_wrapper from desired_underlying = do
    exchange_rate ← ask (ask_sy token sy_wrapper Sy.exchange_rate)
    shares ← lift (underlying_to_shares exchange_rate desired_underlying)
    call (
        call_sy token sy_wrapper
          (Sy.withdraw token views (called_by env sy_wrapper) env.current shares from))

  -- The part of `redeem` under `if pt_amount > 0`.
  unfoldable pub redeem_pt : Views → Env → ℕ → ℕ → ℤ → ℤ → M Joint ℤ
  unfolding pay_out get_pt_token
  redeem_pt views env sy_wrapper from pt_amount final_rate = do
    pt_token ← own get_pt_token
    call (call_pt token pt_token (Pt.burn (called_by env pt_token) from pt_amount))
    desired_underlying ← lift (mul_div pt_amount scale final_rate)
    pay_out views env sy_wrapper from desired_underlying

  -- The part of `redeem` under `if yt_amount > 0`.
  unfoldable pub redeem_yt : Views → Env → ℕ → ℕ → ℤ → M Joint ℤ
  unfolding pay_out get_yt_token
  redeem_yt views env sy_wrapper from yt_amount = do
    yt_token ← own get_yt_token
    call (call_yt token yt_token (Yt.update_yield_index views))
    call (call_yt token yt_token (Yt.burn (called_by env yt_token) from yt_amount))
    desired_underlying ←
        call (call_yt token yt_token (Yt.claim_yield (called_by env yt_token) env.current from))
    if ltb_ℤ (pos 0) desired_underlying
        then pay_out views env sy_wrapper from desired_underlying
        else pure (pos 0)

  unfoldable pub redeem : Views → Env → ℕ → ℤ → ℤ → M Joint RedeemResult
  unfolding assert_not_paused assert_mature assert_oracle_fresh assert_sac_authorized
      assert_permitted get_oracle_rate get_sy_wrapper
  redeem views env from pt_amount yt_amount = do
    require_auth env from
    own assert_not_paused
    own (assert_mature env)
    own (assert_oracle_fresh views)
    own (assert_sac_authorized views from)
    own (assert_permitted views from)
    panic_if (is_zero pt_amount && is_zero yt_amount) (manager ManagerError.zero_amount)
    final_rate ← own (get_oracle_rate views)
    sy_wrapper ← own get_sy_wrapper
    from_pt ←
        if ltb_ℤ (pos 0) pt_amount
        then redeem_pt views env sy_wrapper from pt_amount final_rate
        else pure (pos 0)
    from_yt ←
        if ltb_ℤ (pos 0) yt_amount
        then redeem_yt views env sy_wrapper from yt_amount
        else pure (pos 0)
    pure (record { underlying_from_pt = from_pt; underlying_from_yt = from_yt })

  -- The part of `claim_yield` under `if desired_underlying > 0`.
  unfoldable pub pay_claim : Views → Env → ℕ → ℤ → M Joint ℤ
  unfolding pay_out get_sy_wrapper
  pay_claim views env from desired_underlying = do
    sy_wrapper ← own get_sy_wrapper
    pay_out views env sy_wrapper from desired_underlying

  unfoldable pub claim_yield : Views → Env → ℕ → M Joint ℤ
  unfolding assert_not_paused assert_oracle_fresh assert_sac_authorized assert_permitted
      get_yt_token
  claim_yield views env from = do
    require_auth env from
    own assert_not_paused
    own (assert_oracle_fresh views)
    own (assert_sac_authorized views from)
    own (assert_permitted views from)
    yt_token ← own get_yt_token
    call (call_yt token yt_token (Yt.update_yield_index views))
    desired_underlying ←
        call (call_yt token yt_token (Yt.claim_yield (called_by env yt_token) env.current from))
    if ltb_ℤ (pos 0) desired_underlying
        then pay_claim views env from desired_underlying
        else pure (pos 0)
