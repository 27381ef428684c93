-- ===== src/Pt/Supply.antt =====
-- The balances and the supply of PTToken over histories of calls.
use principal.Base.{ℕ, ◌≡◌, ◌∙◌, none, some, Option, List, All-trivial, arith}
use principal.Base.Int.{ℤ, pos, int_laws}
use principal.Base.Balances.{
  sum, AllNonneg, sum-move, sum-put_on, sum-take_off, move-AllNonneg, put_on-AllNonneg,
  take_off-AllNonneg,
}
use principal.Host.{Env, Views, commit_induction, run_all_induction}
use principal.Pt.Store.{State, empty, total_supply}
use principal.Pt.Entry.{initialize, set_minter, set_recovery_escrow, approve}
use principal.Pt.Requests.{Call}
use principal.Pt.Calls.{Request, apply, apply_call, run}
use principal.Pt.Effects.{Moved, transfer_ok, transfer_from_ok}
use principal.Pt.Issue.{Minted, Burned, mint_ok, burn_ok, seize_ok}

-- Before `initialize` there is no minter and there are no tokens.
abbrev pub Fresh : Option ℕ → Option ℕ → ℤ → Type 0
Fresh none none n = n ≡ pos 0
Fresh none (some _) n = ⊥
Fresh (some _) _ n = Unit

pub record IsSound (s : State) : Type 0 where
  pub summed : sum s.balances ≡ total_supply s
  pub nonneg : AllNonneg s.balances
  pub fresh : Fresh s.admin s.minter (total_supply s)

fresh_of_minter :
    (admin minter : Option ℕ) (m : ℕ) (n n' : ℤ)
    → minter ≡ some m
    → Fresh admin minter n
    → Fresh admin minter n'
fresh_of_minter none none m n n' e h = cc
fresh_of_minter none (some b) m n n' e h = h
fresh_of_minter (some a) minter m n n' e h = tt

moved-IsSound :
    (from to : ℕ) (amount : ℤ) {s s' : State} → Moved from to amount s s' → IsSound s → IsSound s'
unfolding total_supply
moved-IsSound from to amount {s} m h = rw m.moved (record {
  summed = sum-move s.balances from to amount ∙ h.summed;
  nonneg = move-AllNonneg s.balances from to amount (omega (arith, m.positive)) m.covered h.nonneg;
  fresh = h.fresh;
})

Minted-IsSound :
    (views : Views) (env : Env) (to : ℕ) (amount : ℤ) {s s' : State}
    → Minted views env to amount s s'
    → IsSound s
    → IsSound s'
unfolding total_supply
Minted-IsSound views env to amount {s} m h = rw m.effects (record {
  summed = grind (int_laws, h.summed, sum-put_on s.balances to amount);
  nonneg = put_on-AllNonneg s.balances to amount (omega (arith, m.positive)) h.nonneg;
  fresh = fresh_of_minter s.admin s.minter m.minter _ _ m.registered h.fresh;
})

Burned-IsSound :
    (env : Env) (from : ℕ) (amount : ℤ) {s s' : State}
    → Burned env from amount s s'
    → IsSound s
    → IsSound s'
unfolding total_supply
Burned-IsSound env from amount {s} m h = rw m.effects (record {
  summed = grind (int_laws, h.summed, sum-take_off s.balances from amount);
  nonneg = take_off-AllNonneg s.balances from amount m.covered h.nonneg;
  fresh = fresh_of_minter s.admin s.minter m.minter _ _ m.registered h.fresh;
})

pub apply_call-IsSound :
    (views : Views) (env : Env) (call : Call) (s : State)
    → IsSound s
    → IsSound (apply_call views env call s)
unfolding apply_call initialize set_minter set_recovery_escrow approve total_supply
apply_call-IsSound views env (Call.initialize a p u m n y d) s h =
    ground (arith, h.summed, h.nonneg, h.fresh)
apply_call-IsSound views env (Call.set_minter a m) s h = ground (arith, h.summed, h.nonneg, h.fresh)
apply_call-IsSound views env (Call.set_recovery_escrow a e) s h =
    ground (arith, h.summed, h.nonneg, h.fresh)
apply_call-IsSound views env (Call.approve from p x e) s h =
    ground (arith, h.summed, h.nonneg, h.fresh)
apply_call-IsSound views env (Call.transfer from to x) s h =
    commit_induction IsSound s _ h
      λ _ s' e. moved-IsSound from to x (transfer_ok views env from to x s s' e).1.move h
apply_call-IsSound views env (Call.transfer_from p from to x) s h =
    commit_induction IsSound s _ h
      λ _ s' e. moved-IsSound from to x (transfer_from_ok views env p from to x s s' e).1.move h
apply_call-IsSound views env (Call.mint to x) s h =
    commit_induction IsSound s _ h
      λ _ s' e. Minted-IsSound views env to x (mint_ok env s s' views to x e) h
apply_call-IsSound views env (Call.burn from x) s h =
    commit_induction IsSound s _ h λ _ s' e. Burned-IsSound env from x (burn_ok env s s' from x e) h
apply_call-IsSound views env (Call.seize c a x) s h =
    commit_induction IsSound s _ h λ r s' e. moved-IsSound a c x (seize_ok env s s' c a x r e).2 h

pub empty-IsSound : IsSound empty
unfolding sum total_supply
empty-IsSound = ground arith

-- Whatever a new token contract has been called with, and by whom, no balance is negative and the
-- balances of all accounts add up to the total supply.
pub run-IsSound : (calls : List Request) → IsSound (run calls empty)
run-IsSound calls =
    run_all_induction IsSound (λ _. Unit {0}) apply
      (λ (views, env, call) s _ h. apply_call-IsSound views env call s h) calls empty
      (All-trivial calls) empty-IsSound
