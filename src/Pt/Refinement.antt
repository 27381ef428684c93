-- ===== src/Pt/Refinement.antt =====
-- PTToken as a ledger: the state without storage, and the event that each call means.
use principal.Base.{◌∙◌, ℕ, ◌≡◌, refl, List, [], ◌∷◌, arith}
use principal.Base.Int.{zero-+ℤ, ℤ, pos, ◌+ℤ◌}
use principal.Base.Balances.{get_amount}
use principal.Ledger.Steps.{
  get-take_off, get-put_on, move-credit, Ledger, Event, Step, outcome, outcome-Step,
}
use principal.Ledger.Histories.{
  total, paid, received, minted, Run-balance, Run-supply, Run, done, next,
}
use principal.Host.{Env, Views, commit, run_all}
use principal.Pt.Store.{empty, State, total_supply}
use principal.Pt.Entry.{
  initialize, set_minter, set_recovery_escrow, transfer, transfer_from, approve, mint, burn, seize,
}
use principal.Pt.Requests.{Call}
use principal.Pt.Calls.{Request, apply_call, run}
use principal.Pt.Effects.{Moved, transfer_ok, transfer_from_ok}
use principal.Pt.Supply.{empty-IsSound, IsSound, apply_call-IsSound}
use principal.Pt.Issue.{Minted, Burned, mint_ok, burn_ok, seize_ok}

abbrev pub ledger : State → Ledger
ledger s = record {
  balance = get_amount s.balances;
  supply = total_supply s;
  claim = λ account. pos 0;
}

-- The event of a call on the ledger: what the call is for if it succeeds, nothing if it panics.
abbrev pub event : Views → Env → Call → State → Event
event views env (Call.transfer from to x) s =
    outcome (transfer views env from to x s) (Event.moves from to x)
event views env (Call.transfer_from p from to x) s =
    outcome (transfer_from views env p from to x s) (Event.moves from to x)
event views env (Call.mint to x) s = outcome (mint views env to x s) (Event.issues to x)
event views env (Call.burn from x) s = outcome (burn env from x s) (Event.retires from x)
event views env (Call.seize c a x) s = outcome (seize env c a x s) (Event.moves a c x)
event views env _ s = Event.stays

abbrev pub events : List Request → State → List Event
events [] s = []
events ((views, env, call) ∷ rest) s =
    event views env call s ∷ events rest (apply_call views env call s)

Moved-Step :
    (from to : ℕ) (amount : ℤ) (s s' : State)
    → Moved from to amount s s'
    → Step (ledger s) (Event.moves from to amount) (ledger s')
unfolding total_supply
Moved-Step from to amount s s' m = rw m.moved (
    Step.moves from to amount m.positive m.covered (move-credit s.balances from to amount) refl
      (λ a. refl))

Minted-Step :
    (views : Views) (env : Env) (to : ℕ) (amount : ℤ) (s s' : State)
    → Minted views env to amount s s'
    → Step (ledger s) (Event.issues to amount) (ledger s')
unfolding total_supply
Minted-Step views env to amount s s' m =
    rw m.effects
      (Step.issues to amount m.positive (get-put_on s.balances to amount) refl (λ a. refl))

Burned-Step :
    (env : Env) (from : ℕ) (amount : ℤ) (s s' : State)
    → Burned env from amount s s'
    → Step (ledger s) (Event.retires from amount) (ledger s')
unfolding total_supply
Burned-Step env from amount s s' m = rw m.effects (
    Step.retires from amount m.positive m.covered (get-take_off s.balances from amount) refl
      (λ a. refl))

-- A call that moves nothing.
stays_lem :
    (s s' : State)
    → s'.balances ≡ s.balances
    → total_supply s' ≡ total_supply s
    → Step (ledger s) Event.stays (ledger s')
stays_lem s s' b t = Step.stays (λ a. rw b) t (λ a. refl)

apply_call-Step :
    (views : Views) (env : Env) (call : Call) (s : State)
    → IsSound s
    → Step (ledger s) (event views env call s) (ledger (apply_call views env call s))
unfolding apply_call initialize set_minter set_recovery_escrow approve total_supply
apply_call-Step views env (Call.initialize a p u m n y d) s h =
    stays_lem s (commit s (initialize views env a p u m n y d s)) (ground arith)
      (ground (arith, h.fresh))
apply_call-Step views env (Call.set_minter a m) s h =
    stays_lem s (commit s (set_minter env a m s)) (ground arith) (ground arith)
apply_call-Step views env (Call.set_recovery_escrow a e) s h =
    stays_lem s (commit s (set_recovery_escrow env a e s)) (ground arith) (ground arith)
apply_call-Step views env (Call.approve from p x e) s h =
    stays_lem s (commit s (approve env from p x e s)) (ground arith) (ground arith)
apply_call-Step views env (Call.transfer from to x) s h =
    outcome-Step ledger s (transfer views env from to x s) (Event.moves from to x)
      λ _ s' e. Moved-Step from to x s s' (transfer_ok views env from to x s s' e).1.move
apply_call-Step views env (Call.transfer_from p from to x) s h =
    outcome-Step ledger s (transfer_from views env p from to x s) (Event.moves from to x)
      λ _ s' e. Moved-Step from to x s s' (transfer_from_ok views env p from to x s s' e).1.move
apply_call-Step views env (Call.mint to x) s h =
    outcome-Step ledger s (mint views env to x s) (Event.issues to x)
      λ _ s' e. Minted-Step views env to x s s' (mint_ok env s s' views to x e)
apply_call-Step views env (Call.burn from x) s h =
    outcome-Step ledger s (burn env from x s) (Event.retires from x)
      λ _ s' e. Burned-Step env from x s s' (burn_ok env s s' from x e)
apply_call-Step views env (Call.seize c a x) s h =
    outcome-Step ledger s (seize env c a x s) (Event.moves a c x)
      λ r s' e. Moved-Step a c x s s' (seize_ok env s s' c a x r e).2

--
pub run_from-Run :
    (list : List Request) (s : State)
    → IsSound s
    → Run (ledger s) (events list s) (ledger (run list s))
unfolding run_all
run_from-Run [] s h = done
run_from-Run ((views, env, call) ∷ list) s h =
    next (event views env call s) (events list (apply_call views env call s))
      (apply_call-Step views env call s h)
      (run_from-Run list (apply_call views env call s) (apply_call-IsSound views env call s h))

-- A new PT contract implements the ledger: whatever calls it has seen, by anybody, the ledger makes
-- one step after another for each of them, the step that the call is for if it succeeded and none if it
-- panicked; every amount is positive, and what is moved or retired was there.
pub run-implements :
    (list : List Request) → Run (ledger empty) (events list empty) (ledger (run list empty))
run-implements list = run_from-Run list empty empty-IsSound

-- The books of a new PT contract over any history: what an account holds and what it has paid away or
-- burned add up to what it has received, and the supply is what was minted less what was burned.
pub run-books :
    (list : List Request) (account : ℕ)
    → (get_amount (run list empty).balances account +ℤ total (paid account) (events list empty)
        ≡ total (received account) (events list empty))
      × (total_supply (run list empty) ≡ total minted (events list empty))
unfolding get_amount total_supply
run-books list account =
    let r = run-implements list in
    (
      Run-balance account (events list empty) r
          ∙ zero-+ℤ (total (received account) (events list empty)),
      Run-supply (events list empty) r ∙ zero-+ℤ (total minted (events list empty)),
    )
