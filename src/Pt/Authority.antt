-- ===== src/Pt/Authority.antt =====
-- Who can change what in PTToken, over any history of calls.
use principal.Base.{All-trivial, ap, ℕ, ◌≡◌, ◌∙◌, false, some, List, All, arith, ◌==◌}
use principal.Base.Int.{ℤ, ◌+ℤ◌, int_laws}
use principal.Base.Balances.{get_amount, get-move}
use principal.Host.{Env, Views, ok, is_authorized, commit_induction, run_all_induction}
use principal.Pt.Store.{State, total_supply}
use principal.Pt.Entry.{
  initialize, set_minter, set_recovery_escrow, transfer, transfer_from, approve, mint, burn, seize,
}
use principal.Pt.Requests.{Call}
use principal.Pt.Calls.{Request, apply, apply_call, run}
use principal.Pt.Issue.{mint_ok}
use principal.Pt.Effects.{Moved, Transferred, transfer_ok, transfer_from_ok}

-- The wiring of a market that has been set up.
pub record IsWired (admin minter escrow asset : ℕ) (s : State) : Type 0 where
  pub has_admin : s.admin ≡ some admin
  pub has_minter : s.minter ≡ some minter
  pub has_escrow : s.recovery_escrow ≡ some escrow
  pub has_underlying : s.underlying ≡ some asset

-- Neither the minter nor the escrow has authorized the request.
abbrev pub NoContract : ℕ → ℕ → Request → Type 0
NoContract minter escrow (views, env, call) =
    (is_authorized env minter ≡ false) × (is_authorized env escrow ≡ false)

-- The asset's contract answers that the account is not authorized.
abbrev pub Deauthorized : ℕ → ℕ → Request → Type 0
Deauthorized asset account (views, env, call) = views.sac_authorized asset account ≡ ok false

module _ (admin minter escrow asset account : ℕ) (amount : ℤ) where
  pub record IsFrozen (s : State) : Type 0 where
    pub wired : IsWired admin minter escrow asset s
    pub held : get_amount s.balances account ≡ amount

  moved-IsFrozen :
      (from to : ℕ) (x : ℤ) (s s' : State)
      → (from == account) ≡ false
      → (to == account) ≡ false
      → Moved from to x s s'
      → IsFrozen s
      → IsFrozen s'
  moved-IsFrozen from to x s s' nf nt m h = rw m.moved (record {
    wired = record {
      has_admin = h.wired.has_admin;
      has_minter = h.wired.has_minter;
      has_escrow = h.wired.has_escrow;
      has_underlying = h.wired.has_underlying;
    };
    held = get-move s.balances from to account x ∙ rw (nf, nt) (grind (int_laws, h.held));
  })

  Transferred-IsFrozen :
      (views : Views) (env : Env) (from to : ℕ) (x : ℤ) (s s' : State)
      → views.sac_authorized asset account ≡ ok false
      → Transferred views env from to x s s'
      → IsFrozen s
      → IsFrozen s'
  Transferred-IsFrozen views env from to x s s' off t h =
      moved-IsFrozen from to x s s'
        (grind (arith, h.wired.has_underlying, t.from_cleared.underlying, t.from_cleared.on_sac))
        (grind (arith, h.wired.has_underlying, t.to_cleared.underlying, t.to_cleared.on_sac)) t.move
        h

  apply_call-IsFrozen :
      (views : Views) (env : Env) (call : Call) (s : State)
      → NoContract minter escrow (views, env, call)
      → Deauthorized asset account (views, env, call)
      → IsFrozen s
      → IsFrozen (apply_call views env call s)
  unfolding apply_call initialize set_minter set_recovery_escrow approve mint burn seize
  apply_call-IsFrozen views env (Call.initialize a p u m n y d) s q off h = ground arith
  apply_call-IsFrozen views env (Call.set_minter a m) s q off h = ground arith
  apply_call-IsFrozen views env (Call.set_recovery_escrow a e) s q off h = ground arith
  apply_call-IsFrozen views env (Call.approve from p x e) s q off h = ground arith
  apply_call-IsFrozen views env (Call.transfer from to x) s q off h =
      commit_induction IsFrozen s _ h λ _ s' e.
        Transferred-IsFrozen views env from to x s s' off (transfer_ok views env from to x s s' e).1
          h
  apply_call-IsFrozen views env (Call.transfer_from p from to x) s q off h =
      commit_induction IsFrozen s _ h λ _ s' e.
        Transferred-IsFrozen views env from to x s s' off
          (transfer_from_ok views env p from to x s s' e).1 h
  apply_call-IsFrozen views env (Call.mint to x) s q off h = ground arith
  apply_call-IsFrozen views env (Call.burn from x) s q off h = ground arith
  apply_call-IsFrozen views env (Call.seize c a x) s q off h = ground arith

  -- While the asset's contract says that an account is not authorized, no history of calls that
  -- the minter and the escrow have not authorized changes its balance: the account can neither
  -- send, nor receive, nor have tokens taken through an allowance.
  pub run-IsFrozen :
      (calls : List Request) (s : State)
      → All (λ call. NoContract minter escrow call × Deauthorized asset account call) calls
      → IsFrozen s
      → IsFrozen (run calls s)
  run-IsFrozen calls s q h =
      run_all_induction IsFrozen
        (λ call. NoContract minter escrow call × Deauthorized asset account call) apply
        (λ (views, env, call) s q h. apply_call-IsFrozen views env call s q.0 q.1 h) calls s q h

module _ (admin minter escrow asset : ℕ) where
  apply_call-IsWired :
      (views : Views) (env : Env) (call : Call) (s : State)
      → IsWired admin minter escrow asset s
      → IsWired admin minter escrow asset (apply_call views env call s)
  unfolding apply_call initialize set_minter set_recovery_escrow transfer transfer_from approve mint
      burn seize
  apply_call-IsWired views env (Call.initialize a p u m n y d) s h = ground arith
  apply_call-IsWired views env (Call.set_minter a m) s h = ground arith
  apply_call-IsWired views env (Call.set_recovery_escrow a e) s h = ground arith
  apply_call-IsWired views env (Call.approve from p x e) s h = ground arith
  apply_call-IsWired views env (Call.transfer from to x) s h = ground arith
  apply_call-IsWired views env (Call.transfer_from p from to x) s h = ground arith
  apply_call-IsWired views env (Call.mint to x) s h = ground arith
  apply_call-IsWired views env (Call.burn from x) s h = ground arith
  apply_call-IsWired views env (Call.seize c a x) s h = ground arith

  -- Once set, the admin, the minter, the escrow and the asset of a token contract stay what they
  -- are, whatever anybody calls, the admin included.
  pub run-IsWired :
      (calls : List Request) (s : State)
      → IsWired admin minter escrow asset s
      → IsWired admin minter escrow asset (run calls s)
  run-IsWired calls s h =
      run_all_induction (IsWired admin minter escrow asset) (λ _. Unit {0}) apply
        (λ (views, env, call) s _ h. apply_call-IsWired views env call s h) calls s
        (All-trivial calls) h

module _ (admin minter : ℕ) (supply : ℤ) where
  -- A market with this minter and this supply.
  pub record HasSupply (s : State) : Type 0 where
    pub has_admin : s.admin ≡ some admin
    pub has_minter : s.minter ≡ some minter
    pub has_supply : total_supply s ≡ supply

  pub apply_call-HasSupply :
      (views : Views) (env : Env) (call : Call) (s : State)
      → is_authorized env minter ≡ false
      → HasSupply s
      → HasSupply (apply_call views env call s)
  unfolding apply_call initialize set_minter set_recovery_escrow transfer transfer_from approve mint
      burn seize total_supply
  apply_call-HasSupply views env (Call.initialize a p u m n y d) s q h = ground arith
  apply_call-HasSupply views env (Call.set_minter a m) s q h = ground arith
  apply_call-HasSupply views env (Call.set_recovery_escrow a e) s q h = ground arith
  apply_call-HasSupply views env (Call.approve from p x e) s q h = ground arith
  apply_call-HasSupply views env (Call.transfer from to x) s q h = ground arith
  apply_call-HasSupply views env (Call.transfer_from p from to x) s q h = ground arith
  apply_call-HasSupply views env (Call.mint to x) s q h = ground arith
  apply_call-HasSupply views env (Call.burn from x) s q h = ground arith
  apply_call-HasSupply views env (Call.seize c a x) s q h = ground arith

  -- The supply does not change in any history of calls that the minter has not authorized.
  pub run-HasSupply :
      (calls : List Request) (s : State)
      → All (λ call. is_authorized call.1 minter ≡ false) calls
      → HasSupply s
      → HasSupply (run calls s)
  run-HasSupply calls s q h =
      run_all_induction HasSupply (λ call. is_authorized call.1 minter ≡ false) apply
        (λ (views, env, call) s q h. apply_call-HasSupply views env call s q h) calls s q h

module _ (admin minter : ℕ) (supply : ℤ) where
  -- A mint adds its amount to the supply.
  pub minted-HasSupply :
      (views : Views) (env : Env) (to : ℕ) (amount : ℤ) (s s' : State)
      → mint views env to amount s ≡ ok (tt, s')
      → HasSupply admin minter supply s
      → HasSupply admin minter (supply +ℤ amount) s'
  unfolding total_supply
  minted-HasSupply views env to amount s s' e h =
      let m = mint_ok env s s' views to amount e in
      rw m.effects (record {
        has_admin = h.has_admin;
        has_minter = h.has_minter;
        has_supply = ap (λ x. x +ℤ amount) h.has_supply;
      })
