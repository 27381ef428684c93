-- ===== src/Yt/Minter.antt =====
-- Who can change the supply of YTToken.
use principal.Base.{ℕ, ◌≡◌, false, some, arith, ap}
use principal.Base.Int.{ℤ, ◌+ℤ◌}
use principal.Host.{Env, Views, ok, is_authorized, commit_induction}
use principal.Yt.Store.{State, total_supply}
use principal.Yt.Accrual.{update_yield_index, advance_index, claim_yield}
use principal.Yt.Entry.{initialize, set_minter, set_recovery_escrow, approve, mint, burn}
use principal.Yt.Requests.{Call}
use principal.Yt.Calls.{apply_call}
use principal.Yt.Settle.{settled, settled-frame}
use principal.Yt.Effects.{Moved, transfer_ok, transfer_from_ok}
use principal.Yt.Issue.{mint_ok, seize_ok}

module _ (admin minter : ℕ) (supply : ℤ) where
  -- A YT contract with this minter and this supply.
  pub record HasSupply (s : State) : Type 0 where
    pub has_admin : s.admin ≡ some admin
    pub has_minter : s.minter ≡ some minter
    pub has_supply : total_supply s ≡ supply

  settled-HasSupply : (account : ℕ) (s : State) → HasSupply s → HasSupply (settled account s)
  unfolding total_supply
  settled-HasSupply account s h =
      rw (settled-frame account s)
        (record { has_admin = h.has_admin; has_minter = h.has_minter; has_supply = h.has_supply })

  Moved-HasSupply :
      (from to : ℕ) (amount : ℤ) (s s' : State)
      → Moved from to amount s s'
      → HasSupply s
      → HasSupply s'
  unfolding total_supply
  Moved-HasSupply from to amount s s' m h =
      let k = settled-HasSupply to (settled from s) (settled-HasSupply from s h) in
      rw m.moved
        (record { has_admin = k.has_admin; has_minter = k.has_minter; has_supply = k.has_supply })

  pub updated-HasSupply :
      (views : Views) (s s' : State)
      → update_yield_index views s ≡ ok (tt, s')
      → HasSupply s
      → HasSupply s'
  unfolding update_yield_index advance_index total_supply
  updated-HasSupply views s s' e h = ground arith

  pub collected-HasSupply :
      (env : Env) (caller account : ℕ) (amount : ℤ) (s s' : State)
      → claim_yield env caller account s ≡ ok (amount, s')
      → HasSupply s
      → HasSupply s'
  unfolding claim_yield total_supply
  collected-HasSupply env caller account amount s s' e h =
      let k = settled-HasSupply account s h in
      ground (arith, k.has_admin, k.has_minter, k.has_supply)

  pub apply_call-HasSupply :
      (views : Views) (env : Env) (call : Call) (s : State)
      → is_authorized env minter ≡ false
      → HasSupply s
      → HasSupply (apply_call views env call s)
  unfolding apply_call initialize set_minter set_recovery_escrow approve mint burn total_supply
  apply_call-HasSupply views env (Call.initialize a p u o m n y d) s q h = ground arith
  apply_call-HasSupply views env (Call.set_minter a m) s q h = ground arith
  apply_call-HasSupply views env (Call.set_recovery_escrow a e) s q h = ground arith
  apply_call-HasSupply views env (Call.approve from p x e) s q h = ground arith
  apply_call-HasSupply views env (Call.transfer from to x) s q h =
      commit_induction HasSupply s _ h
        λ _ s' e. Moved-HasSupply from to x s s' (transfer_ok views env from to x s s' e).1.move h
  apply_call-HasSupply views env (Call.transfer_from p from to x) s q h =
      commit_induction HasSupply s _ h λ _ s' e.
        Moved-HasSupply from to x s s' (transfer_from_ok views env p from to x s s' e).1.move h
  apply_call-HasSupply views env (Call.mint to x) s q h = ground arith
  apply_call-HasSupply views env (Call.burn from x) s q h = ground arith
  apply_call-HasSupply views env (Call.seize c a x) s q h =
      commit_induction HasSupply s _ h
        λ r s' e. Moved-HasSupply a c x s s' (seize_ok env s s' c a x r e).2 h
  apply_call-HasSupply views env Call.update_yield_index s q h =
      commit_induction HasSupply s _ h λ _ s' e. updated-HasSupply views s s' e h
  apply_call-HasSupply views env (Call.claim_yield c from) s q h =
      commit_induction HasSupply s _ h λ x s' e. collected-HasSupply env c from x s s' e h

module _ (admin minter : ℕ) (supply : ℤ) where
  -- A mint adds its amount to the supply.
  pub minted-HasSupply :
      (views : Views) (env : Env) (to : ℕ) (amount : ℤ) (s s' : State)
      → mint views env to amount s ≡ ok (tt, s')
      → HasSupply admin minter supply s
      → HasSupply admin minter (supply +ℤ amount) s'
  unfolding total_supply
  minted-HasSupply views env to amount s s' e h =
      let m = mint_ok env s s' views to amount e in
      let k = settled-HasSupply admin minter supply to s h in
      rw m.effects (record {
        has_admin = k.has_admin;
        has_minter = k.has_minter;
        has_supply = ap (λ x. x +ℤ amount) h.has_supply;
      })
