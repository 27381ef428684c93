-- ===== src/Yt/Authority.antt =====
-- The balance of a deauthorized account of YTToken over histories of calls.
use principal.Base.{ℕ, ◌≡◌, ◌∙◌, false, some, List, All, arith, ◌==◌}
use principal.Base.Int.{ℤ, int_laws}
use principal.Base.Balances.{get_amount, get-move}
use principal.Host.{Env, Views, ok, is_authorized, commit_induction, run_all_induction}
use principal.Yt.Store.{State}
use principal.Yt.Entry.{initialize, set_minter, set_recovery_escrow, approve, mint, burn, seize}
use principal.Yt.Requests.{Call}
use principal.Yt.Calls.{Request, apply, apply_call, run}
use principal.Yt.Effects.{Moved, Transferred, transfer_ok, transfer_from_ok}
use principal.Yt.Settle.{settled, settled-frame}
use principal.Yt.Accrual.{update_yield_index, advance_index, claim_yield}

-- The wiring of a market that has been set up.
pub record IsWired (admin minter escrow asset : ℕ) (s : State) : Type 0 where
  pub has_admin : s.admin ≡ some admin
  pub has_minter : s.minter ≡ some minter
  pub has_escrow : s.recovery_escrow ≡ some escrow
  pub has_underlying : s.underlying ≡ some asset

-- Neither the minter nor the escrow has authorized the request.
abbrev pub NoContract : ℕ → ℕ → Request → Type 0
NoContract minter escrow (views, env, call) =
    (is_authorized env minter ≡ false) × (is_authorized env escrow ≡ false)

-- The asset's contract answers that the account is not authorized.
abbrev pub Deauthorized : ℕ → ℕ → Request → Type 0
Deauthorized asset account (views, env, call) = views.sac_authorized asset account ≡ ok false

module _ (admin minter escrow asset account : ℕ) (amount : ℤ) where
  pub record IsFrozen (s : State) : Type 0 where
    pub wired : IsWired admin minter escrow asset s
    pub held : get_amount s.balances account ≡ amount

  -- A settlement keeps what is frozen.
  settled-IsFrozen : (a : ℕ) (s : State) → IsFrozen s → IsFrozen (settled a s)
  settled-IsFrozen a s h = rw (settled-frame a s) (record {
    wired = record {
      has_admin = h.wired.has_admin;
      has_minter = h.wired.has_minter;
      has_escrow = h.wired.has_escrow;
      has_underlying = h.wired.has_underlying;
    };
    held = h.held;
  })

  moved-IsFrozen :
      (from to : ℕ) (x : ℤ) (s s' : State)
      → (from == account) ≡ false
      → (to == account) ≡ false
      → Moved from to x s s'
      → IsFrozen s
      → IsFrozen s'
  moved-IsFrozen from to x s s' nf nt m h =
      let f = settled-IsFrozen to (settled from s) (settled-IsFrozen from s h) in
      rw m.moved (record {
        wired = record {
          has_admin = f.wired.has_admin;
          has_minter = f.wired.has_minter;
          has_escrow = f.wired.has_escrow;
          has_underlying = f.wired.has_underlying;
        };
        held = get-move s.balances from to account x ∙ rw (nf, nt) (grind (int_laws, h.held));
      })

  Transferred-IsFrozen :
      (views : Views) (env : Env) (from to : ℕ) (x : ℤ) (s s' : State)
      → views.sac_authorized asset account ≡ ok false
      → Transferred views env from to x s s'
      → IsFrozen s
      → IsFrozen s'
  Transferred-IsFrozen views env from to x s s' off t h =
      moved-IsFrozen from to x s s'
        (grind (arith, h.wired.has_underlying, t.from_cleared.underlying, t.from_cleared.on_sac))
        (grind (arith, h.wired.has_underlying, t.to_cleared.underlying, t.to_cleared.on_sac)) t.move
        h

  apply_call-IsFrozen :
      (views : Views) (env : Env) (call : Call) (s : State)
      → NoContract minter escrow (views, env, call)
      → Deauthorized asset account (views, env, call)
      → IsFrozen s
      → IsFrozen (apply_call views env call s)
  unfolding apply_call initialize set_minter set_recovery_escrow approve mint burn seize
      update_yield_index advance_index claim_yield
  apply_call-IsFrozen views env (Call.initialize a p u o m n y d) s q off h = ground arith
  apply_call-IsFrozen views env (Call.set_minter a m) s q off h = ground arith
  apply_call-IsFrozen views env (Call.set_recovery_escrow a e) s q off h = ground arith
  apply_call-IsFrozen views env (Call.approve from p x e) s q off h = ground arith
  apply_call-IsFrozen views env (Call.transfer from to x) s q off h =
      commit_induction IsFrozen s _ h λ _ s' e.
        Transferred-IsFrozen views env from to x s s' off (transfer_ok views env from to x s s' e).1
          h
  apply_call-IsFrozen views env (Call.transfer_from p from to x) s q off h =
      commit_induction IsFrozen s _ h λ _ s' e.
        Transferred-IsFrozen views env from to x s s' off
          (transfer_from_ok views env p from to x s s' e).1 h
  apply_call-IsFrozen views env (Call.mint to x) s q off h = ground arith
  apply_call-IsFrozen views env (Call.burn from x) s q off h = ground arith
  apply_call-IsFrozen views env (Call.seize c a x) s q off h = ground arith
  apply_call-IsFrozen views env Call.update_yield_index s q off h = ground arith
  apply_call-IsFrozen views env (Call.claim_yield c from) s q off h = ground arith

  -- While the asset's contract says that an account is not authorized, no history of calls that
  -- the minter and the escrow have not authorized changes its balance: the account can neither
  -- send, nor receive, nor have tokens taken through an allowance.
  pub yt_run-IsFrozen :
      (calls : List Request) (s : State)
      → All (λ call. NoContract minter escrow call × Deauthorized asset account call) calls
      → IsFrozen s
      → IsFrozen (run calls s)
  yt_run-IsFrozen calls s q h =
      run_all_induction IsFrozen
        (λ call. NoContract minter escrow call × Deauthorized asset account call) apply
        (λ (views, env, call) s q h. apply_call-IsFrozen views env call s q.0 q.1 h) calls s q h
