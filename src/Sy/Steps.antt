-- ===== src/Sy/Steps.antt =====
-- The life of a wrapper and of the token contracts beside it, as a step relation.
use principal.Base.{ℕ, ◌≡◌, ◌≢◌, Bool, ◌+◌, ◌==◌, if◌then◌else◌}
use principal.Base.Int.{ℤ, pos, ◌+ℤ◌, ◌≤ℤ◌}
use principal.Host.{Env, Views, ok}
use principal.Token.{Token}
use principal.Sy.Store.{State}
use principal.Sy.Entry
use principal.Sy.Entry.{Joint}

module _ (token : Token) where
  open token use {Ledger, balance}

  -- One transaction that succeeds, at the wrapper of address `self`, or one at the token contracts.
  -- The wrapper signs nothing itself, so it does not deposit into itself, and a transfer of tokens
  -- that it has not made takes none from it; the issuer of an asset can claw back what the wrapper
  -- holds, at most `n` units here. Views and environment differ from step to step.
  pub data Step (self : ℕ) (j j' : Joint token) : Type 0 where
    initialize :
        (views : Views) (env : Env) (admin underlying permissioning : ℕ) (s' : State)
        → Entry.initialize views env admin underlying permissioning j.0 ≡ ok (tt, s')
        → j' ≡ (s', j.1)
        → Step self j j'
    transfer :
        (views : Views) (env : Env) (from to : ℕ) (amount result : ℤ) (s' : State)
        → Entry.transfer views env from to amount j.0 ≡ ok (result, s')
        → j' ≡ (s', j.1)
        → Step self j j'
    deposit :
        (views : Views) (env : Env) (from : ℕ) (amount result : ℤ)
        → env.current ≡ self
        → from ≢ self
        → Entry.deposit token views env from amount j ≡ ok (result, j')
        → Step self j j'
    withdraw :
        (views : Views) (env : Env) (from : ℕ) (shares : ℤ) (to : ℕ) (result : ℤ)
        → env.current ≡ self
        → Entry.withdraw token views env from shares to j ≡ ok (result, j')
        → Step self j j'
    set_paused :
        (env : Env) (caller : ℕ) (paused : Bool) (s' : State)
        → Entry.set_paused env caller paused j.0 ≡ ok (tt, s')
        → j' ≡ (s', j.1)
        → Step self j j'
    transfer_admin :
        (env : Env) (current_admin new_admin : ℕ) (s' : State)
        → Entry.transfer_admin env current_admin new_admin j.0 ≡ ok (tt, s')
        → j' ≡ (s', j.1)
        → Step self j j'
    set_recovery_escrow :
        (env : Env) (admin escrow : ℕ) (s' : State)
        → Entry.set_recovery_escrow env admin escrow j.0 ≡ ok (tt, s')
        → j' ≡ (s', j.1)
        → Step self j j'
    seize :
        (env : Env) (caller account : ℕ) (shares result : ℤ) (s' : State)
        → Entry.seize env caller account shares j.0 ≡ ok (result, s')
        → j' ≡ (s', j.1)
        → Step self j j'
    token_only :
        (l' : Ledger)
        → ((asset : ℕ) → balance asset j.1 self ≤ℤ balance asset l' self)
        → j' ≡ (j.0, l')
        → Step self j j'
    clawback :
        (asset n : ℕ) (l' : Ledger)
        → balance asset j.1 self ≤ℤ balance asset l' self +ℤ pos n
        → ((other : ℕ) → other ≢ asset → balance other j.1 self ≤ℤ balance other l' self)
        → j' ≡ (j.0, l')
        → Step self j j'

  -- What has been clawed back of each asset after a step, and after a history.
  abbrev pub taken : {self : ℕ} {j j' : Joint token} → Step self j j' → (ℕ → ℕ) → ℕ → ℕ
  taken (Step.clawback asset n _ _ _ _) before a = (if asset == a then n else 0) + before a
  taken _ before a = before a

  pub data Reach (self : ℕ) (j : Joint token) : Joint token → Type 0 where
    here : Reach self j j
    next : {k l : Joint token} → Reach self j k → Step self k l → Reach self j l

  abbrev pub clawed_back : {self : ℕ} {j k : Joint token} → Reach self j k → ℕ → ℕ
  clawed_back Reach.here a = 0
  clawed_back (Reach.next r st) a = taken st (clawed_back r) a
