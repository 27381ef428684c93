-- ===== src/Yt/Settle.antt =====
-- What `settle` adds to an account's claim, in one formula.
use native.Mathlib.Nat.{zero-mul, mul-zero, zero-div}
use principal.Base.{
  ◌⊎◌, ℕ, zero, suc, ◌*◌, ◌/◌, ◌-◌, ◌≤◌, ◌≡◌, refl, arith, ◌==◌, put, inl, inr, if◌then◌else◌, ap,
}
use principal.Base.Int.{ℤ, pos, ◌+ℤ◌, ◌-ℤ◌, int_laws, ltb_ℤ}
use principal.Base.Balances.{get_amount, get-set_amount}
use native.Mathlib.Decide.{dec_le}
use principal.Host.{
  commit, commit_induction, pure, mul_div_cases, pure, ok, checked_cases, and_then_ok,
}
use principal.Yt.Store.{State, last_claimed_index, accrued_yield_index}
use principal.Yt.Accrual.{settle, settle_pending, accrue, add_pending}

-- The yield of `bal` tokens while the index falls from `last` to `factor`; none if it does not fall.
abbrev pub owed : ℕ → ℕ → ℕ → ℕ
owed bal last factor = bal * (last - factor) / last

-- A settlement writes the claim and the snapshot of its account and nothing else.
pub record Settled (account : ℕ) (s s' : State) : Type 0 where
  pub frame :
      s' ≡ record s { pending_claim = s'.pending_claim; last_claimed_index = s'.last_claimed_index }
  pub snapshot : s'.last_claimed_index ≡ put s.last_claimed_index account (accrued_yield_index s)
  pub others :
      (a : ℕ)
      → get_amount s'.pending_claim a
        ≡ get_amount (if a == account then s'.pending_claim else s.pending_claim) a

pub settle-Settled :
    (account : ℕ) (s s' : State) → settle account s ≡ ok (tt, s') → Settled account s s'
unfolding settle settle_pending accrue add_pending accrued_yield_index
settle-Settled account s s' h = record {
  frame = ground arith;
  snapshot = ground arith;
  others = λ a. grind (arith, get-set_amount);
}

pub pos-sub : (a b : ℕ) → b ≤ a → (pos a -ℤ pos b) ≡ pos (a - b)
unfolding ◌-ℤ◌
pos-sub a b h = ground arith

-- The claim of `account` grows by this much.
abbrev pub Adds : ℕ → ℤ → State → State → Type 0
Adds account amount s s' =
    get_amount s'.pending_claim account ≡ get_amount s.pending_claim account +ℤ amount

add_pending-Adds :
    (account n : ℕ) (s s' : State)
    → (if ltb_ℤ (pos 0) (pos n) then add_pending account (pos n) else pure tt) s ≡ ok (tt, s')
    → Adds account (pos n) s s'
unfolding add_pending
add_pending-Adds account zero s s' h = grind int_laws
add_pending-Adds account (suc n) s s' h =
    grind
      (int_laws, checked_cases (get_amount s.pending_claim account +ℤ pos (suc n)), get-set_amount)

accrue-Adds :
    (account b l f : ℕ) (s s' : State)
    → f ≤ suc l
    → accrue account (pos f) (pos (suc l)) (pos b) s ≡ ok (tt, s')
    → Adds account (pos (owed b (suc l) f)) s s'
unfolding accrue
accrue-Adds account b l f s s' fl h = elim (checked_cases (pos (suc l - f))) [
  | inr e ↦ cc (rw (pos-sub (suc l) f fl, e) at h)
  | inl e ↦ elim (mul_div_cases b (suc l - f) l) [
    | inr (p, g) ↦ cc (rw (pos-sub (suc l) f fl, e, g) at h)
    | inl g ↦
        add_pending-Adds account (owed b (suc l) f) s s' (rw (pos-sub (suc l) f fl, e, g) at h)
  ]
]

-- Nothing is owed on no tokens, or while the index has not fallen.
pub owed_none : (b l f : ℕ) → ((b ≡ 0) ⊎ (l ≤ f)) → owed b l f ≡ 0
owed_none b l f (inl e) = rw (e, zero-mul, zero-div)
owed_none b l f (inr h) = let z : l - f ≡ 0 = omega arith in rw (z, mul-zero, zero-div)

settle_pending-Adds :
    (account b l f : ℕ) (s s' : State)
    → get_amount s.balances account ≡ pos b
    → f ≤ suc l
    → settle_pending account (pos f) (pos (suc l)) s ≡ ok (tt, s')
    → Adds account (pos (owed b (suc l) f)) s s'
unfolding settle_pending
settle_pending-Adds account zero l f s s' hb fl h =
    rw (owed_none 0 (suc l) f (inl refl)) (grind int_laws)
settle_pending-Adds account (suc b) l f s s' hb fl h =
    ground (arith, accrue-Adds account (suc b) l f s s')

branch-Adds :
    (account b l f : ℕ) (s s' : State)
    → get_amount s.balances account ≡ pos b
    → (if ltb_ℤ (pos f) (pos (suc l))
          then settle_pending account (pos f) (pos (suc l))
          else pure tt)
        s
      ≡ ok (tt, s')
    → Adds account (pos (owed b (suc l) f)) s s'
branch-Adds account b l f s s' hb h = elim (dec_le (suc l) f) [
  | yes kept ↦ rw (owed_none b (suc l) f (inr kept)) (grind int_laws)
  | no fell ↦ ground (arith, settle_pending-Adds account b l f s s')
]

-- A settlement that succeeds adds to the claim of its account the balance times the fall of the
-- index since the account's last settlement, divided by the index then, rounded down; this is 0 on
-- every path that adds nothing. It sets the account's snapshot to the index, and leaves the other
-- accounts and everything else as they were.
pub settle_ok :
    (account b l f : ℕ) (s s' : State)
    → get_amount s.balances account ≡ pos b
    → last_claimed_index account s ≡ pos (suc l)
    → accrued_yield_index s ≡ pos f
    → settle account s ≡ ok (tt, s')
    → Settled account s s' × Adds account (pos (owed b (suc l) f)) s s'
unfolding settle last_claimed_index accrued_yield_index
settle_ok account b l f s s' hb hl hf h = (
  settle-Settled account s s' h,
  let (r, e, g) =
        and_then_ok
          ((if ltb_ℤ (accrued_yield_index s) (last_claimed_index account s)
              then settle_pending account (accrued_yield_index s) (last_claimed_index account s)
              else pure tt)
            s)
          h in
      ground (arith, branch-Adds account b l f s r.1 hb (rw (hf, hl) at e)),
)

-- The state after a settlement.
abbrev pub settled : ℕ → State → State
settled account s = commit s (settle account s)

-- A settlement leaves this field as it was.
pub settled-frame :
    (account : ℕ) (s : State)
    → settled account s ≡ record s {
      pending_claim = (settled account s).pending_claim;
      last_claimed_index = (settled account s).last_claimed_index;
    }
settled-frame account s =
    commit_induction
      (λ t.
        t ≡ record s { pending_claim = t.pending_claim; last_claimed_index = t.last_claimed_index })
      s (settle account s) refl (λ _ s' e. (settle-Settled account s s' e).frame)

module _ (account : ℕ) (s : State) where
  pub settled-balances : (settled account s).balances ≡ s.balances
  settled-balances = ap (λ t. t.balances) (settled-frame account s)

  pub settled-allowances : (settled account s).allowances ≡ s.allowances
  settled-allowances = ap (λ t. t.allowances) (settled-frame account s)

  pub settled-total_supply : (settled account s).total_supply ≡ s.total_supply
  settled-total_supply = ap (λ t. t.total_supply) (settled-frame account s)
