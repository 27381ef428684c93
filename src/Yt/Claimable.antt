-- ===== src/Yt/Claimable.antt =====
-- What an account of YTToken could collect now: its settled claim, and what its next settlement
-- would add.
use principal.Base.{
  ==_iff, false, Bool-cases, ℕ, ◌≡◌, ◌∙◌, ◌==◌, ◌&&◌, arith, if◌then◌else◌, inl, inr, ap,
}
use principal.Base.Int.{+ℤ_zero, ℤ, pos, ◌+ℤ◌, ◌-ℤ◌, ◌*ℤ◌, quot_ℤ, ltb_ℤ, int_laws}
use principal.Base.Balances.{get_amount, get-set_amount}
use principal.Host.{ok, checked_cases, mul_div, pure, and_then_ok}
use principal.Yt.Store.{State, last_claimed_index, accrued_yield_index}
use principal.Yt.Settle.{settle-Settled, Settled}
use principal.Yt.Accrual.{settle, settle_pending, accrue, add_pending}

-- The yield of a balance between two indices in exact integers: none unless the index has fallen
-- and there are tokens.
unfoldable pub exact_yield : ℤ → ℤ → ℤ → ℤ
exact_yield bal last factor =
    let y = quot_ℤ (bal *ℤ (last -ℤ factor)) last in
    if ltb_ℤ factor last && ltb_ℤ (pos 0) bal && ltb_ℤ (pos 0) y then y else pos 0

unfoldable pub unsettled : ℕ → State → ℤ
unsettled account s =
    exact_yield (get_amount s.balances account) (last_claimed_index account s)
      (accrued_yield_index s)

unfoldable pub claimable : ℕ → State → ℤ
unfolding unsettled
claimable account s = get_amount s.pending_claim account +ℤ unsettled account s

add_pending_adds :
    (account : ℕ) (x : ℤ) (s s' : State)
    → (if ltb_ℤ (pos 0) x then add_pending account x else pure tt) s ≡ ok (tt, s')
    → get_amount s'.pending_claim account
      ≡ get_amount s.pending_claim account +ℤ (if ltb_ℤ (pos 0) x then x else pos 0)
unfolding add_pending
add_pending_adds account x s s' h =
    grind (int_laws, checked_cases (get_amount s.pending_claim account +ℤ x), get-set_amount)

settle_pending_adds :
    (account : ℕ) (factor last : ℤ) (s s' : State)
    → (if ltb_ℤ factor last then settle_pending account factor last else pure tt) s ≡ ok (tt, s')
    → get_amount s'.pending_claim account
      ≡ get_amount s.pending_claim account
        +ℤ exact_yield (get_amount s.balances account) last factor
unfolding settle_pending accrue exact_yield mul_div
settle_pending_adds account factor last s s' h = ground (
  arith,
  +ℤ_zero (get_amount s.pending_claim account),
  checked_cases (last -ℤ factor),
  checked_cases (get_amount s.balances account *ℤ (last -ℤ factor)),
  checked_cases (quot_ℤ (get_amount s.balances account *ℤ (last -ℤ factor)) last),
  add_pending_adds account (quot_ℤ (get_amount s.balances account *ℤ (last -ℤ factor)) last) s s',
)

-- A settlement turns what is unsettled into a claim.
pub settle_adds :
    (account : ℕ) (s s' : State)
    → settle account s ≡ ok (tt, s')
    → get_amount s'.pending_claim account ≡ claimable account s
unfolding settle claimable unsettled last_claimed_index accrued_yield_index
settle_adds account s s' h =
    let (r, e, g) =
      and_then_ok
        ((if ltb_ℤ (accrued_yield_index s) (last_claimed_index account s)
            then settle_pending account (accrued_yield_index s) (last_claimed_index account s)
            else pure tt)
          s)
        h in
    ground (
      arith,
      settle_pending_adds account (accrued_yield_index s) (last_claimed_index account s) s r.1,
    )

-- An account that was settled at the present index has nothing unsettled, whatever its balance.
unfoldable pub IsCurrent : ℕ → State → Type 0
IsCurrent account s = last_claimed_index account s ≡ accrued_yield_index s

pub claimable-current :
    (account : ℕ) (s : State)
    → IsCurrent account s
    → claimable account s ≡ get_amount s.pending_claim account
unfolding claimable unsettled exact_yield IsCurrent
claimable-current account s h = ground (arith, +ℤ_zero (get_amount s.pending_claim account))

pub settle-IsCurrent :
    (account : ℕ) (s s' : State) → settle account s ≡ ok (tt, s') → IsCurrent account s'
unfolding IsCurrent last_claimed_index accrued_yield_index
settle-IsCurrent account s s' h =
    let k = settle-Settled account s s' h in rw (k.frame, k.snapshot) (ground arith)

settle_other :
    (account a : ℕ) (s s' : State)
    → (a == account) ≡ false
    → Settled account s s'
    → claimable a s' ≡ claimable a s
unfolding claimable unsettled last_claimed_index accrued_yield_index
settle_other account a s s' n k =
    let same : get_amount s'.pending_claim a ≡ get_amount s.pending_claim a =
      ground (arith, k.others a) in
    let last : s'.last_claimed_index a ≡ s.last_claimed_index a = rw k.snapshot (ground arith) in
    let bal : s'.balances ≡ s.balances = ap (λ t. t.balances) k.frame in
    let idx : s'.yield_index ≡ s.yield_index = ap (λ t. t.yield_index) k.frame in
    rw (same, last, bal, idx)

-- A settlement of any account keeps what each account could collect.
pub settle-claimable :
    (account a : ℕ) (s s' : State) → settle account s ≡ ok (tt, s') → claimable a s' ≡ claimable a s
settle-claimable account a s s' h =
    let k = settle-Settled account s s' h in
    elim (Bool-cases (a == account)) [
      | inl e ↦ rw ((==_iff a account).0 e) (
          claimable-current account s' (settle-IsCurrent account s s' h)
          ∙ settle_adds account s s' h)
      | inr n ↦ settle_other account a s s' n k
    ]
