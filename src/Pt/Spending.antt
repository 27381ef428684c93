-- ===== src/Pt/Spending.antt =====
-- What a spender can move of an owner's PT over any history of calls.
use principal.Base.{ℕ, refl, ◌≡◌, false, List, [], ◌∷◌, All, arith, ◌==◌, ◌&&◌, if◌then◌else◌}
use principal.Base.Int.{ℤ, pos, ◌+ℤ◌, ◌-ℤ◌, ◌≤ℤ◌, int_laws, +ℤ_zero}
use principal.Allowance.{get-set_allowance, get_allowance, set_allowance}
use principal.Host.{Env, Views, Result, ok, err, is_authorized, commit, run_all}
use principal.Pt.Store.{State, allowance}
use principal.Pt.Entry.{
  initialize, set_minter, set_recovery_escrow, transfer, transfer_from, approve, mint, burn, seize,
}
use principal.Pt.Requests.{Call}
use principal.Pt.Calls.{Request, apply_call, run}
use principal.Pt.Effects.{transfer_from_ok}

-- The amount, if the call has succeeded.
abbrev pub if_ok : {A : Type 0} → Result A → ℤ → ℤ
if_ok (ok _) amount = amount
if_ok (err _) amount = pos 0

add_up : (a b c d e : ℤ) → a +ℤ b ≡ c → c +ℤ d ≡ e → a +ℤ (d +ℤ b) ≡ e
add_up a b c d e g h = grind int_laws

module _ (owner spender : ℕ) where
  -- What one call moves of the owner's tokens by the spender's allowance.
  abbrev pub spent : Views → Env → Call → State → ℤ
  spent views env (Call.transfer_from p from to x) s =
      if p == spender && from == owner
      then if_ok (transfer_from views env p from to x s) x
      else pos 0
  spent views env _ s = pos 0

  abbrev pub total_spent : List Request → State → ℤ
  total_spent [] s = pos 0
  total_spent ((views, env, call) ∷ rest) s =
      spent views env call s +ℤ total_spent rest (apply_call views env call s)

  -- The allowance after a transfer that succeeds.
  after_spending :
      (views : Views) (env : Env) (p from to : ℕ) (x : ℤ) (s s' : State)
      → transfer_from views env p from to x s ≡ ok (tt, s')
      → allowance owner spender s' ≡ (
          if from == owner && p == spender
          then (get_allowance s.allowances from p).amount -ℤ x
          else (get_allowance s.allowances owner spender).amount)
  unfolding allowance
  after_spending views env p from to x s s' e = ground (
    arith,
    (transfer_from_ok views env p from to x s s' e).2.spent,
    get-set_allowance s.allowances from p owner spender
        ((get_allowance s.allowances from p).amount -ℤ x)
        (get_allowance s.allowances from p).expiration_ledger,
  )

  spends :
      (views : Views) (env : Env) (p from to : ℕ) (x : ℤ) (s : State) (r : Result (Unit × State))
      → transfer_from views env p from to x s ≡ r
      → allowance owner spender (commit s r)
          +ℤ (if p == spender && from == owner then if_ok r x else pos 0)
        ≡ allowance owner spender s
  unfolding allowance
  spends views env p from to x s (ok (_, s')) e =
      let g = after_spending views env p from to x s s' e in grind (int_laws, g)
  spends views env p from to x s (err _) e = grind int_laws

  apply_call-spent :
      (views : Views) (env : Env) (call : Call) (s : State)
      → is_authorized env owner ≡ false
      → allowance owner spender (apply_call views env call s) +ℤ spent views env call s
        ≡ allowance owner spender s
  unfolding apply_call initialize set_minter set_recovery_escrow approve transfer mint burn seize
      allowance get_allowance set_allowance
  apply_call-spent views env (Call.initialize a p u m n y d) s q = grind (int_laws, +ℤ_zero)
  apply_call-spent views env (Call.set_minter a m) s q = grind (int_laws, +ℤ_zero)
  apply_call-spent views env (Call.set_recovery_escrow a e) s q = grind (int_laws, +ℤ_zero)
  apply_call-spent views env (Call.approve from p x e) s q =
      ground (arith, +ℤ_zero (allowance owner spender s))
  apply_call-spent views env (Call.transfer from to x) s q =
      ground (arith, +ℤ_zero (allowance owner spender s))
  apply_call-spent views env (Call.transfer_from p from to x) s q =
      spends views env p from to x s (transfer_from views env p from to x s) refl
  apply_call-spent views env (Call.mint to x) s q =
      ground (arith, +ℤ_zero (allowance owner spender s))
  apply_call-spent views env (Call.burn from x) s q =
      ground (arith, +ℤ_zero (allowance owner spender s))
  apply_call-spent views env (Call.seize c a x) s q =
      ground (arith, +ℤ_zero (allowance owner spender s))

  run-adds :
      (list : List Request) (s : State)
      → All (λ r. is_authorized r.1 owner ≡ false) list
      → allowance owner spender (run list s) +ℤ total_spent list s ≡ allowance owner spender s
  unfolding run_all
  run-adds [] s q = +ℤ_zero (allowance owner spender s)
  run-adds ((views, env, call) ∷ list) s q =
      let t = apply_call views env call s in
      add_up (allowance owner spender (run list t)) (total_spent list t) (allowance owner spender t)
        (spent views env call s) (allowance owner spender s) (run-adds list t q.1)
        (apply_call-spent views env call s q.0)

  spend-nonneg :
      (views : Views) (env : Env) (p from to : ℕ) (x : ℤ) (s : State)
      → pos 0 ≤ℤ allowance owner spender s
      → (r : Result (Unit × State)) → transfer_from views env p from to x s ≡ r
      → pos 0 ≤ℤ allowance owner spender (commit s r)
  unfolding allowance
  spend-nonneg views env p from to x s h (ok (_, s')) e =
      let g = after_spending views env p from to x s s' e in
      let a = (transfer_from_ok views env p from to x s s' e).2.allowed in grind (int_laws, g, a)
  spend-nonneg views env p from to x s h (err _) e = h

  -- No call takes the allowance below nothing.
  apply_call-nonneg :
      (views : Views) (env : Env) (call : Call) (s : State)
      → pos 0 ≤ℤ allowance owner spender s
      → pos 0 ≤ℤ allowance owner spender (apply_call views env call s)
  unfolding apply_call initialize set_minter set_recovery_escrow approve transfer mint burn seize
      allowance get_allowance set_allowance
  apply_call-nonneg views env (Call.initialize a p u m n y d) s h = ground arith
  apply_call-nonneg views env (Call.set_minter a m) s h = ground arith
  apply_call-nonneg views env (Call.set_recovery_escrow a e) s h = ground arith
  apply_call-nonneg views env (Call.approve from p x e) s h = ground arith
  apply_call-nonneg views env (Call.transfer from to x) s h = ground arith
  apply_call-nonneg views env (Call.transfer_from p from to x) s h =
      spend-nonneg views env p from to x s h (transfer_from views env p from to x s) refl
  apply_call-nonneg views env (Call.mint to x) s h = ground arith
  apply_call-nonneg views env (Call.burn from x) s h = ground arith
  apply_call-nonneg views env (Call.seize c a x) s h = ground arith

  run-nonneg :
      (list : List Request) (s : State)
      → pos 0 ≤ℤ allowance owner spender s
      → pos 0 ≤ℤ allowance owner spender (run list s)
  unfolding run_all
  run-nonneg [] s h = h
  run-nonneg ((views, env, call) ∷ list) s h =
      run-nonneg list (apply_call views env call s) (apply_call-nonneg views env call s h)

  -- Over any history of calls that the owner has not authorized, what a spender has moved of the
  -- owner's tokens and what is left of the allowance add up to what the allowance was, and an
  -- allowance that is not negative stays so, so that no more is moved than was allowed.
  pub run-spent :
      (list : List Request) (s : State)
      → All (λ r. is_authorized r.1 owner ≡ false) list
      → pos 0 ≤ℤ allowance owner spender s
      → (allowance owner spender (run list s) +ℤ total_spent list s ≡ allowance owner spender s)
        × (pos 0 ≤ℤ allowance owner spender (run list s))
        × (total_spent list s ≤ℤ allowance owner spender s)
  run-spent list s q h =
      let sum = run-adds list s q in
      let left = run-nonneg list s h in (sum, left, grind (int_laws, sum, left))
