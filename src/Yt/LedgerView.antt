-- ===== src/Yt/LedgerView.antt =====
-- YTToken as a ledger: balances, supply, and what each account could collect, without snapshots,
-- settlement or storage; and the writes of its calls as steps of that ledger.
use principal.Base.{◌∙◌, ℕ, ◌≡◌, arith, ap}
use principal.Base.Int.{pos_of_nonneg, ℤ}
use principal.Base.Balances.{get_amount, move, put_on, take_off}
use principal.Ledger.Steps.{Ledger, Event, Step, get-put_on, get-take_off, move-credit}
use principal.Host.{Env, Views, ok}
use principal.Yt.Store.{accrued_yield_index, last_claimed_index, State, total_supply}
use principal.Yt.Accrual.{update_yield_index}
use principal.Yt.Effects.{Moved}
use principal.Yt.Issue.{Minted, Burned}
use principal.Yt.Settle.{settled, settled-total_supply}
use principal.Yt.Claimable.{claimable, unsettled}
use principal.Yt.Claims.{Moved-claimable, Minted-claimable, Burned-claimable}
use principal.Yt.Collecting.{Collected}
use principal.Yt.Index.{update_yield_index_ok}
use principal.Yt.Metered.{Meter, IsMetered}
use principal.Yt.Earning.{update_yield_index-claimable}

abbrev pub yt_ledger : State → Ledger
yt_ledger s = record {
  balance = get_amount s.balances;
  supply = total_supply s;
  claim = λ account. claimable account s;
}

pub Moved-Step :
    (from to : ℕ) (amount : ℤ) (s s' : State)
    → Moved from to amount s s'
    → Step (yt_ledger s) (Event.moves from to amount) (yt_ledger s')
unfolding total_supply
Moved-Step from to amount s s' m =
    let b : s'.balances ≡ move s.balances from to amount = ap (λ t. t.balances) m.moved in
    let t : s'.total_supply ≡ s.total_supply =
      ap (λ t. t.total_supply) m.moved
      ∙ settled-total_supply to (settled from s)
      ∙ settled-total_supply from s in
    Step.moves from to amount m.positive m.covered
      (λ a. rw b (move-credit s.balances from to amount a)) (rw t)
      (λ a. Moved-claimable from to a amount s s' m)

pub Minted-Step :
    (views : Views) (env : Env) (to : ℕ) (amount : ℤ) (s s' : State)
    → Minted views env to amount s s'
    → Step (yt_ledger s) (Event.issues to amount) (yt_ledger s')
unfolding total_supply
Minted-Step views env to amount s s' m =
    let b : s'.balances ≡ put_on s.balances to amount = ap (λ t. t.balances) m.effects in
    Step.issues to amount m.positive (λ a. rw b (get-put_on s.balances to amount a))
      (ap (λ t. total_supply t) m.effects) (λ a. Minted-claimable views env to a amount s s' m)

pub Burned-Step :
    (env : Env) (from : ℕ) (amount : ℤ) (s s' : State)
    → Burned env from amount s s'
    → Step (yt_ledger s) (Event.retires from amount) (yt_ledger s')
unfolding total_supply
Burned-Step env from amount s s' m =
    let b : s'.balances ≡ take_off s.balances from amount = ap (λ t. t.balances) m.effects in
    Step.retires from amount m.positive m.covered
      (λ a. rw b (get-take_off s.balances from amount a)) (ap (λ t. total_supply t) m.effects)
      (λ a. Burned-claimable env from a amount s s' m)

pub Collected-Step :
    (account : ℕ) (amount : ℤ) (s s' : State)
    → Collected account amount s s'
    → Step (yt_ledger s) (Event.collects account amount) (yt_ledger s')
unfolding total_supply
Collected-Step account amount s s' m =
    Step.collects account amount m.whole (λ a. ap (λ t. get_amount t.balances a) m.frame)
      (ap (λ t. total_supply t) m.frame) m.cleared

pub updated-Step :
    (views : Views) (s s' : State)
    → update_yield_index views s ≡ ok (tt, s')
    → IsMetered s
    → Meter s
    → Step (yt_ledger s) Event.accrues (yt_ledger s')
unfolding total_supply update_yield_index
updated-Step views s s' e h (Meter.off a o y) = absurd (ground arith)
updated-Step views s s' e h (Meter.on f r a y l) =
    let u = update_yield_index_ok views f r s s' y l e in
    Step.accrues (λ b. ap (λ t. get_amount t.balances b) u.frame) (ap (λ t. total_supply t) u.frame)
      (λ b.
        let (n, k) = pos_of_nonneg (last_claimed_index b s) (h.snapshots b) in
        update_yield_index-claimable views f r n b s s' y l k e)

-- A call that moves no token and no yield.
pub stays_lem :
    (s s' : State)
    → s'.balances ≡ s.balances
    → total_supply s' ≡ total_supply s
    → s'.pending_claim ≡ s.pending_claim
    → s'.last_claimed_index ≡ s.last_claimed_index
    → accrued_yield_index s' ≡ accrued_yield_index s
    → Step (yt_ledger s) Event.stays (yt_ledger s')
unfolding claimable unsettled last_claimed_index accrued_yield_index
stays_lem s s' b t p l i = Step.stays (λ a. rw b) t (λ a. rw (p, b, l, i))
