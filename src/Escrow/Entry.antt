-- ===== src/Escrow/Entry.antt =====
-- RecoveryEscrow: the entry points that write.
use principal.Base.{ℕ, Option, some, not, ◌||◌, ◌==◌, is_some, put}
use principal.Base.Int.{ℤ, pos, leb_ℤ}
use principal.Host.{
  Env, Views, Result, ok, and_then, M, pure, gets, modify, panic_if, ◌>>=◌, ◌>>◌, called_by,
}
use principal.Host.Errors.{EscrowError, escrow}
use principal.Token.{Token}
use principal.World.{World, found, call_sy, call_pt, call_yt, ask_sy, ask_pt, ask_yt, answer}
use principal.Sy
use principal.Pt
use principal.Yt
use principal.Manager
use principal.Escrow.Store.{State, DataKey, get, assert_issuer_admin, assert_target_deauthorized}

module _ (token : Token) where
  -- What the escrow calls: the managers by their addresses, and the contracts that they call too.
  abbrev pub Around : Type 0
  Around = (ℕ → Option Manager.State) × World token

  abbrev pub Joint : Type 0
  Joint = State × Around

  -- A step on the escrow's own storage.
  abbrev pub own : {A : Type 0} → M State A → M Joint A
  own f j = and_then (f j.0) (λ r. ok (r.0, (r.1, j.1)))

  -- A call of a token contract.
  abbrev pub call : {A : Type 0} → M (World token) A → M Joint A
  call f j = and_then (f (j.1).1) (λ r. ok (r.0, (j.0, ((j.1).0, r.1))))

  -- A call of the manager at an address.
  abbrev pub call_manager : {A : Type 0} → ℕ → M (Manager.Joint token) A → M Joint A
  call_manager a f j =
      and_then (found ((j.1).0 a))
        (λ m. and_then (f (m, (j.1).1)) (λ r. ok (r.0, (j.0, (put ((j.1).0) a (r.1.0), r.1.1)))))

  abbrev pub ask : {A : Type 0} → (World token → Result A) → M Joint A
  ask f j = and_then (f (j.1).1) (λ a. ok (a, j))

  abbrev pub ask_manager : {A : Type 0} → ℕ → (Manager.State → Result A) → M Joint A
  ask_manager a f j = and_then (found ((j.1).0 a)) (λ m. and_then (f m) (λ x. ok (x, j)))

  unfoldable pub assert_position_underlying_matches : ℕ → ℕ → ℕ → ℕ → ℕ → M Joint Unit
  assert_position_underlying_matches underlying sy_wrapper pt_token yt_token principal_manager = do
    sy_underlying ← ask (ask_sy token sy_wrapper (answer Sy.get_underlying))
    pt_underlying ← ask (ask_pt token pt_token (answer Pt.underlying_address))
    yt_underlying ← ask (ask_yt token yt_token (answer Yt.underlying_address))
    pm_underlying ← ask_manager principal_manager (answer Manager.underlying_address)
    panic_if
        (not (sy_underlying == underlying)
          || not (pt_underlying == underlying)
          || not (yt_underlying == underlying)
          || not (pm_underlying == underlying))
        (escrow EscrowError.position_underlying_mismatch)

  unfoldable pub initialize : ℕ → ℕ → ℕ → ℕ → ℕ → M Joint Unit
  unfolding assert_position_underlying_matches
  initialize underlying sy_wrapper pt_token yt_token principal_manager = do
    initialized ← gets (λ j. is_some (State.underlying (j.0)))
    panic_if initialized (escrow EscrowError.already_initialized)
    assert_position_underlying_matches underlying sy_wrapper pt_token yt_token principal_manager
    own (
        modify (λ s. record s {
          underlying = some underlying;
          sy_wrapper = some sy_wrapper;
          pt_token = some pt_token;
          yt_token = some yt_token;
          principal_manager = some principal_manager;
        }))

  unfoldable pub seize_sy : Views → Env → ℕ → ℕ → ℤ → M Joint ℤ
  unfolding assert_issuer_admin assert_target_deauthorized get
  seize_sy views env caller account shares = do
    own (assert_issuer_admin views env caller)
    own (assert_target_deauthorized views account)
    panic_if (leb_ℤ shares (pos 0)) (escrow EscrowError.zero_amount)
    sy_wrapper ← own (get DataKey.sy_wrapper)
    seized ← call (
        call_sy token sy_wrapper
          (Manager.sy_only token (Sy.seize (called_by env sy_wrapper) env.current account shares)))
    call (
        call_sy token sy_wrapper
          (Sy.withdraw token views (called_by env sy_wrapper) env.current shares env.current))

  unfoldable pub seize_pt : Views → Env → ℕ → ℕ → ℤ → M Joint ℤ
  unfolding assert_issuer_admin assert_target_deauthorized get
  seize_pt views env caller account amount = do
    own (assert_issuer_admin views env caller)
    own (assert_target_deauthorized views account)
    panic_if (leb_ℤ amount (pos 0)) (escrow EscrowError.zero_amount)
    pt_token ← own (get DataKey.pt_token)
    call (call_pt token pt_token (Pt.seize (called_by env pt_token) env.current account amount))

  unfoldable pub seize_yt : Views → Env → ℕ → ℕ → ℤ → M Joint ℤ
  unfolding assert_issuer_admin assert_target_deauthorized get
  seize_yt views env caller account amount = do
    own (assert_issuer_admin views env caller)
    own (assert_target_deauthorized views account)
    panic_if (leb_ℤ amount (pos 0)) (escrow EscrowError.zero_amount)
    yt_token ← own (get DataKey.yt_token)
    call (call_yt token yt_token (Yt.seize (called_by env yt_token) env.current account amount))

  unfoldable pub finalize_pt : Views → Env → ℕ → ℤ → M Joint ℤ
  unfolding assert_issuer_admin get
  finalize_pt views env caller pt_amount = do
    own (assert_issuer_admin views env caller)
    panic_if (leb_ℤ pt_amount (pos 0)) (escrow EscrowError.zero_amount)
    principal_manager ← own (get DataKey.principal_manager)
    result ←
        call_manager principal_manager (
          Manager.redeem token views (called_by env principal_manager) env.current pt_amount
            (pos 0))
    pure (result.underlying_from_pt)

  unfoldable pub finalize_yt : Views → Env → ℕ → ℤ → M Joint ℤ
  unfolding assert_issuer_admin get
  finalize_yt views env caller yt_amount = do
    own (assert_issuer_admin views env caller)
    panic_if (leb_ℤ yt_amount (pos 0)) (escrow EscrowError.zero_amount)
    principal_manager ← own (get DataKey.principal_manager)
    result ←
        call_manager principal_manager (
          Manager.redeem token views (called_by env principal_manager) env.current (pos 0)
            yt_amount)
    pure (result.underlying_from_yt)
