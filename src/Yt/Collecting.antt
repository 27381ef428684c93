-- ===== src/Yt/Collecting.antt =====
-- What `claim_yield` of YTToken pays and clears, against what the account could collect.
use principal.Base.{
  ℕ, ◌==◌, ◌≡◌, ◌∙◌, Bool-cases, true, inl, inr, ap, sym, arith, ==_iff, false, some, if◌then◌else◌,
}
use principal.Base.Int.{ℤ, pos}
use principal.Base.Balances.{get_amount, get-set_amount, set_amount}
use principal.Ledger.Steps.{Same, clear}
use principal.Host.{Env, ok, is_authorized}
use principal.Yt.Store.{State, accrued_yield_index, last_claimed_index}
use principal.Yt.Accrual.{settle, claim_yield}
use principal.Yt.Settle.{settled, settled-frame}
use principal.Yt.Claimable.{
  claimable, unsettled, claimable-current, IsCurrent, settle-IsCurrent, settle-claimable,
  settle_adds,
}

-- The whole claim of one account is paid out, and nothing else changes but its snapshot.
pub record Collected (account : ℕ) (amount : ℤ) (s s' : State) : Type 0 where
  pub whole : amount ≡ claimable account s
  pub cleared : Same (λ a. claimable a s') (clear (λ a. claimable a s) account)
  pub frame :
      s' ≡ record s { pending_claim = s'.pending_claim; last_claimed_index = s'.last_claimed_index }

emptied : ℕ → State → State
emptied account s = record s { pending_claim = set_amount s.pending_claim account (pos 0) }

own-claimable : (a : ℕ) (s : State) → IsCurrent a s → claimable a (emptied a s) ≡ pos 0
unfolding emptied IsCurrent last_claimed_index accrued_yield_index
own-claimable a s c = claimable-current a (emptied a s) c ∙ grind (arith, get-set_amount)

other-claimable :
    (account a : ℕ) (s : State)
    → (account == a) ≡ false
    → claimable a (emptied account s) ≡ claimable a s
unfolding emptied claimable unsettled last_claimed_index accrued_yield_index
other-claimable account a s n =
    let same : get_amount (set_amount s.pending_claim account (pos 0)) a
        ≡ get_amount s.pending_claim a =
      grind (arith, get-set_amount) in
    rw same

emptied-claimable :
    (account : ℕ) (s : State)
    → IsCurrent account s
    → Same (λ a. claimable a (emptied account s)) (clear (λ a. claimable a s) account)
emptied-claimable account s c a = elim (Bool-cases (account == a)) [
  | inl e ↦ rw e (rw (sym ((==_iff account a).0 e)) (own-claimable account s c))
  | inr n ↦ rw n (other-claimable account a s n)
]

claim_yield-steps :
    (env : Env) (caller account : ℕ) (amount : ℤ) (s s' : State)
    → claim_yield env caller account s ≡ ok (amount, s')
    → (settle account s ≡ ok (tt, settled account s))
      × (amount ≡ get_amount (settled account s).pending_claim account)
      × (s' ≡ emptied account (settled account s))
unfolding claim_yield emptied
claim_yield-steps env caller account amount s s' h = (ground arith, ground arith, ground arith)

-- A collection that succeeds was signed by the minter, pays exactly what the account could collect
-- at the present index, settled or not, and leaves it nothing to collect; what the other accounts
-- could collect and everything else stay.
pub claim_yield-Collected :
    (env : Env) (caller account : ℕ) (amount : ℤ) (s s' : State)
    → claim_yield env caller account s ≡ ok (amount, s')
    → (is_authorized env caller ≡ true) × (s.minter ≡ some caller) × Collected account amount s s'
unfolding claim_yield emptied
claim_yield-Collected env caller account amount s s' h =
    let (e, f, g) = claim_yield-steps env caller account amount s s' h in
    let t = settled account s in
    let c = settle-IsCurrent account s t e in
    (
      ground arith,
      ground arith,
      record {
        whole = f ∙ settle_adds account s t e;
        cleared = λ a.
            rw g (emptied-claimable account t c a)
            ∙ ap (λ x. if account == a then pos 0 else x) (settle-claimable account a s t e);
        frame = rw g (ap (emptied account) (settled-frame account s));
      },
    )
