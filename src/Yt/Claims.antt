-- ===== src/Yt/Claims.antt =====
-- What the calls of YTToken that settle an account do to what each account could collect.
use principal.Base.{subst, sym, ℕ, ◌≡◌, ◌⊎◌, ◌∙◌, inl, inr, refl, ap, arith}
use principal.Base.Int.{ℤ}
use principal.Base.Balances.{Balances, get_amount, get-set_amount, take_off, put_on, move}
use principal.Host.{Env, Views, ok}
use principal.Yt.Store.{State, accrued_yield_index, last_claimed_index}
use principal.Yt.Accrual.{settle}
use principal.Yt.Settle.{settled-balances, settled, settle-Settled}
use principal.Yt.Claimable.{
  claimable, unsettled, IsCurrent, claimable-current, settle-IsCurrent, settle-claimable,
}
use principal.Yt.Effects.{Moved}
use principal.Yt.Issue.{Minted, Burned}

-- Two states that differ at most in the balances of current accounts, the supply and the allowances.
record Differ (s t : State) : Type 0 where
  claims : t.pending_claim ≡ s.pending_claim
  snapshots : t.last_claimed_index ≡ s.last_claimed_index
  index : t.yield_index ≡ s.yield_index

Differ-IsCurrent : (a : ℕ) (s t : State) → Differ s t → IsCurrent a s → IsCurrent a t
unfolding IsCurrent last_claimed_index accrued_yield_index
Differ-IsCurrent a s t d c = rw (d.snapshots, d.index) c

Differ-claimable :
    (a : ℕ) (s t : State)
    → Differ s t
    → (IsCurrent a s ⊎ (get_amount t.balances a ≡ get_amount s.balances a))
    → claimable a t ≡ claimable a s
unfolding claimable unsettled last_claimed_index accrued_yield_index
Differ-claimable a s t d (inl c) =
    claimable-current a t (Differ-IsCurrent a s t d c)
    ∙ ap (λ b. get_amount b a) d.claims
    ∙ sym (claimable-current a s c)
Differ-claimable a s t d (inr b) = rw (d.claims, d.snapshots, d.index, b)

settle-keeps-IsCurrent :
    (account a : ℕ) (s s' : State) → IsCurrent a s → settle account s ≡ ok (tt, s') → IsCurrent a s'
unfolding IsCurrent last_claimed_index accrued_yield_index
settle-keeps-IsCurrent account a s s' c h =
    let k = settle-Settled account s s' h in rw (k.frame, k.snapshot) (ground arith)

put_on-other :
    (b : Balances) (to a : ℕ) (x : ℤ) → (to ≡ a) ⊎ (get_amount (put_on b to x) a ≡ get_amount b a)
put_on-other b to a x = grind (arith, get-set_amount)

take_off-other :
    (b : Balances) (from a : ℕ) (x : ℤ)
    → (from ≡ a) ⊎ (get_amount (take_off b from x) a ≡ get_amount b a)
take_off-other b from a x = grind (arith, get-set_amount)

-- What a move writes, it writes to accounts that were settled.
move_touches :
    (from to a : ℕ) (amount : ℤ) (s s' u : State)
    → s'.balances ≡ move s.balances from to amount
    → u.balances ≡ s.balances
    → IsCurrent from u
    → IsCurrent to u
    → (IsCurrent a u ⊎ (get_amount s'.balances a ≡ get_amount u.balances a))
unfolding move
move_touches from to a amount s s' u b ub f g = elim (take_off-other s.balances from a amount) [
  | inl e ↦ inl (subst (λ x. IsCurrent x u) e f)
  | inr o ↦ elim (put_on-other (take_off s.balances from amount) to a amount) [
    | inl e ↦ inl (subst (λ x. IsCurrent x u) e g)
    | inr p ↦ inr (rw (b, ub) (p ∙ o))
  ]
]

-- A transfer or a seizure keeps what every account could collect.
pub Moved-claimable :
    (from to a : ℕ) (amount : ℤ) (s s' : State)
    → Moved from to amount s s'
    → claimable a s' ≡ claimable a s
Moved-claimable from to a amount s s' m =
    let t = settled from s in
    let u = settled to t in
    let d : Differ u s' = rw m.moved (record { claims = refl; snapshots = refl; index = refl }) in
    let b : s'.balances ≡ move s.balances from to amount = ap (λ v. v.balances) m.moved in
    let ub : u.balances ≡ s.balances = settled-balances to t ∙ settled-balances from s in
    let f =
      settle-keeps-IsCurrent to from t u (settle-IsCurrent from s t m.from_settles) m.to_settles in
    Differ-claimable a u s' d
      (move_touches from to a amount s s' u b ub f (settle-IsCurrent to t u m.to_settles))
    ∙ settle-claimable to a t u m.to_settles
    ∙ settle-claimable from a s t m.from_settles

pub Minted-claimable :
    (views : Views) (env : Env) (to a : ℕ) (amount : ℤ) (s s' : State)
    → Minted views env to amount s s'
    → claimable a s' ≡ claimable a s
Minted-claimable views env to a amount s s' m =
    let t = settled to s in
    let d : Differ t s' = rw m.effects (record { claims = refl; snapshots = refl; index = refl }) in
    let b : s'.balances ≡ put_on s.balances to amount = ap (λ v. v.balances) m.effects in
    Differ-claimable a t s' d (elim (put_on-other s.balances to a amount) [
      | inl e ↦ inl (subst (λ x. IsCurrent x t) e (settle-IsCurrent to s t m.to_settles))
      | inr o ↦ inr (rw (b, settled-balances to s) o)
    ])
    ∙ settle-claimable to a s t m.to_settles

pub Burned-claimable :
    (env : Env) (from a : ℕ) (amount : ℤ) (s s' : State)
    → Burned env from amount s s'
    → claimable a s' ≡ claimable a s
Burned-claimable env from a amount s s' m =
    let t = settled from s in
    let d : Differ t s' = rw m.effects (record { claims = refl; snapshots = refl; index = refl }) in
    let b : s'.balances ≡ take_off s.balances from amount = ap (λ v. v.balances) m.effects in
    Differ-claimable a t s' d (elim (take_off-other s.balances from a amount) [
      | inl e ↦ inl (subst (λ x. IsCurrent x t) e (settle-IsCurrent from s t m.from_settles))
      | inr o ↦ inr (rw (b, settled-balances from s) o)
    ])
    ∙ settle-claimable from a s t m.from_settles
