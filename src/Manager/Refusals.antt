-- ===== src/Manager/Refusals.antt =====
-- The errors of `mint`, `redeem` and `claim_yield` of PrincipalManager: which guard speaks first.
use principal.Base.{
  ℕ, Bool, ◌≡◌, ◌&&◌, not, ltb, leb, List, [], ◌∷◌, Option, none, true, false, arith, unwrap_or,
  some,
}
use principal.Base.Int.{ℤ, pos, leb_ℤ, is_zero}
use principal.Host.{Env, Views, ok, err, is_authorized}
use principal.Host.Errors.{Panic, auth, ManagerError, manager}
use principal.Token.{Token}
use principal.Manager.Store.{State, max_oracle_staleness_secs}
use principal.Manager.Entry.{Joint, mint, claim_yield}

-- Guards in the order in which they are asked, each with its test and its error.
abbrev pub Guards : Type 0
Guards = List (Bool × Panic)

-- The error of the first guard that strikes.
abbrev pub first : Guards → Option Panic
first [] = none
first ((true, p) ∷ guards) = some p
first ((false, p) ∷ guards) = first guards

-- A manager that has been initialized, and what the contracts around it answer of an account.
pub record Answers (views : Views) (from : ℕ) (s : State) : Type 0 where
  pub oracle : ℕ
  pub registry : ℕ
  pub asset : ℕ
  pub end_of_term : ℕ
  pub fresh : Bool
  pub on_sac : Bool
  pub permitted : Bool
  pub has_oracle : s.oracle ≡ some oracle
  pub has_permissioning : s.permissioning ≡ some registry
  pub has_underlying : s.underlying ≡ some asset
  pub has_maturity : s.maturity ≡ some end_of_term
  pub says_fresh : views.is_fresh oracle max_oracle_staleness_secs ≡ ok fresh
  pub says_on_sac : views.sac_authorized asset from ≡ ok on_sac
  pub says_permitted : views.is_allowed registry from ≡ ok permitted

module _ (views : Views) (env : Env) (from : ℕ) (s : State) (a : Answers views from s) where
  abbrev identity : Bool × Panic
  identity = (not (is_authorized env from), auth)

  abbrev pause : Bool × Panic
  pause = (unwrap_or s.paused false, manager ManagerError.paused)

  abbrev staleness : Bool × Panic
  staleness = (not a.fresh, manager ManagerError.oracle_stale)

  abbrev compliance : Guards
  compliance =
      (not a.on_sac, manager ManagerError.not_authorized_on_sac)
      ∷ (not a.permitted, manager ManagerError.permission_denied)
      ∷ []

  -- A mint is for before the maturity, and of a positive number of shares.
  abbrev pub mint_guards : ℤ → Guards
  mint_guards amount =
      identity
      ∷ pause
      ∷ (leb a.end_of_term env.timestamp, manager ManagerError.already_mature)
      ∷ staleness
      ∷ (leb_ℤ amount (pos 0), manager ManagerError.zero_amount)
      ∷ compliance

  -- A redemption is for the maturity and after, and of some PT or YT.
  abbrev pub redeem_guards : ℤ → ℤ → Guards
  redeem_guards pt yt =
      identity
      ∷ pause
      ∷ (ltb env.timestamp a.end_of_term, manager ManagerError.not_mature)
      ∷ staleness
      ∷ (not a.on_sac, manager ManagerError.not_authorized_on_sac)
      ∷ (not a.permitted, manager ManagerError.permission_denied)
      ∷ (is_zero pt && is_zero yt, manager ManagerError.zero_amount)
      ∷ []

  abbrev pub claim_guards : Guards
  claim_guards = identity ∷ pause ∷ staleness ∷ compliance

module _ (token : Token) (views : Views) (env : Env) (from : ℕ) (j : Joint token) where
  -- At an initialized manager whose oracle, registry and asset answer, a mint fails with the error
  -- of the first guard that strikes: a missing signature, a paused manager, a time at or after the
  -- maturity, a stale oracle, no positive amount, an account that the asset or the registry refuses.
  pub mint-refused :
      (amount : ℤ) (p : Panic) (a : Answers views from (j.0))
      → first (mint_guards views env from (j.0) a amount) ≡ some p
      → mint token views env from amount j ≡ err p
  unfolding mint
  mint-refused amount p a h = ground (
    arith, a.has_oracle, a.has_permissioning, a.has_underlying, a.has_maturity, a.says_fresh,
    a.says_on_sac, a.says_permitted,
  )

  -- So does a claim, at any time: a missing signature, a paused manager, a stale oracle, an account
  -- that the asset or the registry refuses.
  pub claim_yield-refused :
      (p : Panic) (a : Answers views from (j.0))
      → first (claim_guards views env from (j.0) a) ≡ some p
      → claim_yield token views env from j ≡ err p
  unfolding claim_yield
  claim_yield-refused p a h = ground (
    arith, a.has_oracle, a.has_permissioning, a.has_underlying, a.has_maturity, a.says_fresh,
    a.says_on_sac, a.says_permitted,
  )
