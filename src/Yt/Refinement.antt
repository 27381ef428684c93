-- ===== src/Yt/Refinement.antt =====
-- YTToken implements the ledger: the event that each call means, one call and whole histories.
use Prim.Native.String.{String}
use principal.Base.{◌∙◌, ℕ, ◌≡◌, refl, List, [], ◌∷◌, All, arith}
use principal.Base.Int.{zero-+ℤ, ℤ, ◌+ℤ◌, ◌≤ℤ◌}
use principal.Base.Balances.{get_amount}
use principal.Ledger.Steps.{Event, Step, outcome, outcome-Step}
use principal.Ledger.Histories.{
  total, collected, paid, received, minted, Run-claim, Run-balance, Run-supply, Run, done, next,
}
use principal.Host.{Env, Views, Result, ok, err, commit, run_all, run_all_induction}
use principal.Yt.Store.{accrued_yield_index, State, empty, total_supply}
use principal.Yt.Entry.{
  initialize, set_minter, set_recovery_escrow, transfer, transfer_from, approve, mint, burn, seize,
}
use principal.Yt.Accrual.{update_yield_index, claim_yield}
use principal.Yt.Requests.{Call}
use principal.Yt.Calls.{apply, Request, apply_call, run}
use principal.Yt.Effects.{transfer_ok, transfer_from_ok}
use principal.Yt.Issue.{mint_ok, burn_ok, seize_ok}
use principal.Yt.LedgerView.{
  yt_ledger, Moved-Step, Minted-Step, Burned-Step, Collected-Step, updated-Step, stays_lem,
}
use principal.Yt.Claimable.{claimable}
use principal.Yt.Collecting.{claim_yield-Collected}
use principal.Yt.Metered.{Meter, IsMetered, IsPriced, apply_call-IsMetered, empty-IsMetered}
use principal.Yt.Supply.{yt_run-IsSound, IsSound, apply_call-IsSound, empty-IsSound}

-- The event of a call on the ledger: what the call is for if it succeeds, nothing if it panics. A
-- collection is of the amount that the contract returned.
abbrev pub collection : ℕ → Result (ℤ × State) → Event
collection account (ok (amount, _)) = Event.collects account amount
collection account (err _) = Event.stays

abbrev pub yt_event : Views → Env → Call → State → Event
yt_event views env (Call.transfer from to x) s =
    outcome (transfer views env from to x s) (Event.moves from to x)
yt_event views env (Call.transfer_from p from to x) s =
    outcome (transfer_from views env p from to x s) (Event.moves from to x)
yt_event views env (Call.mint to x) s = outcome (mint views env to x s) (Event.issues to x)
yt_event views env (Call.burn from x) s = outcome (burn env from x s) (Event.retires from x)
yt_event views env (Call.seize c a x) s = outcome (seize env c a x s) (Event.moves a c x)
yt_event views env Call.update_yield_index s = outcome (update_yield_index views s) Event.accrues
yt_event views env (Call.claim_yield c from) s = collection from (claim_yield env c from s)
yt_event views env _ s = Event.stays

abbrev pub yt_events : List Request → State → List Event
yt_events [] s = []
yt_events ((views, env, call) ∷ rest) s =
    yt_event views env call s ∷ yt_events rest (apply_call views env call s)

module _ (views : Views) (env : Env) (s : State) where
  initialized-Step :
      (a p u o m : ℕ) (n y : String) (d : ℕ)
      → IsSound s
      → Meter s
      → Step
          (yt_ledger s)
          Event.stays
          (yt_ledger (commit s (initialize views env a p u o m n y d s)))
  unfolding initialize total_supply accrued_yield_index
  initialized-Step a p u o m n y d h (Meter.on f r v w x) =
      stays_lem s _ (ground arith) (ground arith) (ground arith) (ground arith) (ground arith)
  initialized-Step a p u o m n y d h (Meter.off v w x) =
      stays_lem s _ (ground arith) (ground (arith, h.fresh)) (ground arith) (ground arith)
        (ground arith)

  collection-Step :
      (caller account : ℕ) (r : Result (ℤ × State))
      → claim_yield env caller account s ≡ r
      → Step (yt_ledger s) (collection account r) (yt_ledger (commit s r))
  collection-Step caller account (ok (x, s')) e =
      Collected-Step account x s s' (claim_yield-Collected env caller account x s s' e).2
  collection-Step caller account (err p) e = stays_lem s s refl refl refl refl refl

  -- One call of a sound and metered contract makes one step of the ledger.
  yt_apply-Step :
      (call : Call)
      → IsSound s
      → IsMetered s
      → Step (yt_ledger s) (yt_event views env call s) (yt_ledger (apply_call views env call s))
  unfolding apply_call set_minter set_recovery_escrow approve total_supply accrued_yield_index
  yt_apply-Step (Call.initialize a p u o m n y d) h q = initialized-Step a p u o m n y d h q.meter
  yt_apply-Step (Call.set_minter a m) h q =
      stays_lem s _ (ground arith) (ground arith) (ground arith) (ground arith) (ground arith)
  yt_apply-Step (Call.set_recovery_escrow a e) h q =
      stays_lem s _ (ground arith) (ground arith) (ground arith) (ground arith) (ground arith)
  yt_apply-Step (Call.approve from p x e) h q =
      stays_lem s _ (ground arith) (ground arith) (ground arith) (ground arith) (ground arith)
  yt_apply-Step (Call.transfer from to x) h q =
      outcome-Step yt_ledger s (transfer views env from to x s) (Event.moves from to x)
        λ _ s' e. Moved-Step from to x s s' (transfer_ok views env from to x s s' e).1.move
  yt_apply-Step (Call.transfer_from p from to x) h q =
      outcome-Step yt_ledger s (transfer_from views env p from to x s) (Event.moves from to x)
        λ _ s' e. Moved-Step from to x s s' (transfer_from_ok views env p from to x s s' e).1.move
  yt_apply-Step (Call.mint to x) h q =
      outcome-Step yt_ledger s (mint views env to x s) (Event.issues to x)
        λ _ s' e. Minted-Step views env to x s s' (mint_ok env s s' views to x e)
  yt_apply-Step (Call.burn from x) h q =
      outcome-Step yt_ledger s (burn env from x s) (Event.retires from x)
        λ _ s' e. Burned-Step env from x s s' (burn_ok env s s' from x e)
  yt_apply-Step (Call.seize c a x) h q =
      outcome-Step yt_ledger s (seize env c a x s) (Event.moves a c x)
        λ r s' e. Moved-Step a c x s s' (seize_ok env s s' c a x r e).2
  yt_apply-Step Call.update_yield_index h q =
      outcome-Step yt_ledger s (update_yield_index views s) Event.accrues
        λ _ s' e. updated-Step views s s' e q q.meter
  yt_apply-Step (Call.claim_yield c from) h q =
      collection-Step c from (claim_yield env c from s) refl

yt_run_from-Run :
    (list : List Request) (s : State)
    → All (λ r. IsPriced r.0) list
    → IsSound s
    → IsMetered s
    → Run (yt_ledger s) (yt_events list s) (yt_ledger (run list s))
unfolding run_all
yt_run_from-Run [] s p h q = done
yt_run_from-Run ((views, env, call) ∷ list) s p h q =
    next (yt_event views env call s) (yt_events list (apply_call views env call s))
      (yt_apply-Step views env s call h q)
      (yt_run_from-Run list (apply_call views env call s) p.1
        (apply_call-IsSound views env call s h) (apply_call-IsMetered views env call s p.0 q))

-- A new YT contract whose oracle answers only positive rates implements the ledger, in which the
-- claim of an account is what it could collect now: whatever calls the contract has seen, by anybody,
-- each that succeeded is one step, the step that it is for, and each that panicked is none. Moving,
-- issuing, retiring or seizing tokens changes no account's claim, an update of the index lowers none,
-- and a collection pays exactly the account's claim and clears it.
pub yt_run-implements :
    (list : List Request)
    → All (λ r. IsPriced r.0) list
    → Run (yt_ledger empty) (yt_events list empty) (yt_ledger (run list empty))
yt_run-implements list p = yt_run_from-Run list empty p empty-IsSound empty-IsMetered

run-IsMetered : (list : List Request) → All (λ r. IsPriced r.0) list → IsMetered (run list empty)
run-IsMetered list p =
    run_all_induction IsMetered (λ r. IsPriced r.0) apply
      (λ (views, env, call) s q h. apply_call-IsMetered views env call s q h) list empty p
      empty-IsMetered

-- Yield is never lost: with an oracle that answers only positive rates, whatever calls of anybody a
-- YT contract has seen, and whatever calls follow, what an account could collect before these is at
-- most what it can collect after them and what they have paid out to it.
pub yield-kept :
    (before after : List Request) (account : ℕ)
    → All (λ r. IsPriced r.0) before
    → All (λ r. IsPriced r.0) after
    → claimable account (run before empty)
      ≤ℤ claimable account (run after (run before empty))
        +ℤ total (collected account) (yt_events after (run before empty))
yield-kept before after account p q =
    Run-claim account (yt_events after (run before empty))
      (yt_run_from-Run after (run before empty) q (yt_run-IsSound before) (run-IsMetered before p))

-- The books of a new YT contract over any history: what an account holds and what it has paid away or
-- burned add up to what it has received, and the supply is what was minted less what was burned.
pub yt_run-books :
    (list : List Request) (account : ℕ)
    → All (λ r. IsPriced r.0) list
    → (get_amount (run list empty).balances account +ℤ total (paid account) (yt_events list empty)
        ≡ total (received account) (yt_events list empty))
      × (total_supply (run list empty) ≡ total minted (yt_events list empty))
unfolding get_amount total_supply
yt_run-books list account p =
    let r = yt_run-implements list p in
    (
      Run-balance account (yt_events list empty) r
          ∙ zero-+ℤ (total (received account) (yt_events list empty)),
      Run-supply (yt_events list empty) r ∙ zero-+ℤ (total minted (yt_events list empty)),
    )
