-- ===== src/Yt/Calls.antt =====
-- A history of YTToken: calls by anybody, each a transaction with its own views and environment.
use principal.Base.{List}
use principal.Host.{Env, Views, commit, run_all}
use principal.Yt.Requests.{Call}
use principal.Yt.Store.{State}
use principal.Yt.Accrual.{update_yield_index, claim_yield}
use principal.Yt.Entry.{
  initialize, set_minter, set_recovery_escrow, transfer, transfer_from, approve, mint, burn, seize,
}

abbrev pub Request : Type 0
Request = Views × Env × Call

unfoldable pub apply_call : Views → Env → Call → State → State
apply_call views env (Call.initialize a p u o m n y d) s =
    commit s (initialize views env a p u o m n y d s)
apply_call views env (Call.set_minter a m) s = commit s (set_minter env a m s)
apply_call views env (Call.set_recovery_escrow a e) s = commit s (set_recovery_escrow env a e s)
apply_call views env (Call.transfer from to x) s = commit s (transfer views env from to x s)
apply_call views env (Call.transfer_from p from to x) s =
    commit s (transfer_from views env p from to x s)
apply_call views env (Call.approve from p x e) s = commit s (approve env from p x e s)
apply_call views env (Call.mint to x) s = commit s (mint views env to x s)
apply_call views env (Call.burn from x) s = commit s (burn env from x s)
apply_call views env (Call.seize c a x) s = commit s (seize env c a x s)
apply_call views env Call.update_yield_index s = commit s (update_yield_index views s)
apply_call views env (Call.claim_yield c from) s = commit s (claim_yield env c from s)

abbrev pub apply : Request → State → State
apply (views, env, call) s = apply_call views env call s

abbrev pub run : List Request → State → State
run = run_all apply
