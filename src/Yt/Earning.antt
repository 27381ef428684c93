-- ===== src/Yt/Earning.antt =====
-- What an update of the yield index does to what the accounts of YTToken could collect.
use native.Mathlib.Nat.{mul-le-mul_left, le-div_iff_mul-le, le_trans, div-mul-le_self}
use native.Mathlib.Decide.{dec_lt}
use principal.Base.{
  ℕ, zero, suc, ◌*◌, ◌-◌, ◌≤◌, ◌<◌, ◌≡◌, arith, some, inl, inr, ◌⊎◌, ◌∙◌, sym, ap, refl,
}
use principal.Base.Int.{ℤ, pos, negsuc, ◌≤ℤ◌, int_laws, quot_ℤ-pos, pos-*ℤ}
use principal.Base.Balances.{get_amount}
use principal.Host.{Views, ok}
use principal.Yt.Store.{State, last_claimed_index, accrued_yield_index}
use principal.Yt.Accrual.{update_yield_index}
use principal.Yt.Index.{update_yield_index_ok, Updated-fell}
use principal.Yt.Claimable.{exact_yield, unsettled, claimable}
use principal.Yt.Settle.{pos-sub, owed, owed_none}

exact_yield-nonneg : (bal last factor : ℤ) → pos 0 ≤ℤ exact_yield bal last factor
unfolding exact_yield
exact_yield-nonneg bal last factor = ground arith

-- Without a balance, or while the index is not below the snapshot, it is nothing.
exact_yield-zero :
    (bal last factor : ℤ)
    → ((bal ≤ℤ pos 0) ⊎ (last ≤ℤ factor))
    → exact_yield bal last factor ≡ pos 0
unfolding exact_yield
exact_yield-zero bal last factor (inl h) = ground arith
exact_yield-zero bal last factor (inr h) = ground arith

-- On a balance, while the index is not above the snapshot, it is the rounded-down quotient.
below-pos :
    (b l f : ℕ)
    → f < suc l
    → exact_yield (pos (suc b)) (pos (suc l)) (pos f) ≡ pos (owed (suc b) (suc l) f)
unfolding exact_yield
below-pos b l f h = rw (pos-sub (suc l) f (omega arith), pos-*ℤ, quot_ℤ-pos) (ground arith)

exact_yield-pos :
    (b l f : ℕ) → f ≤ suc l → exact_yield (pos b) (pos (suc l)) (pos f) ≡ pos (owed b (suc l) f)
exact_yield-pos zero l f h =
    exact_yield-zero (pos 0) (pos (suc l)) (pos f) (inl (omega arith))
    ∙ ap pos (sym (owed_none 0 (suc l) f (inl refl)))
exact_yield-pos (suc b) l f h = elim (dec_lt f (suc l)) [
  | yes below ↦ below-pos b l f below
  | no above ↦
      exact_yield-zero (pos (suc b)) (pos (suc l)) (pos f) (inr (omega arith))
      ∙ ap pos (sym (owed_none (suc b) (suc l) f (inr (omega arith))))
]

owed_mono : (b l f g : ℕ) → g ≤ f → owed b (suc l) f ≤ owed b (suc l) g
owed_mono b l f g h =
    (le-div_iff_mul-le (omega arith)).1
      (le_trans (div-mul-le_self (b * (suc l - f)) (suc l)) (mul-le-mul_left b (omega arith)))

-- A lower index never yields less.
exact_yield_mono :
    (bal : ℤ) (l f g : ℕ)
    → g ≤ f
    → exact_yield bal (pos l) (pos f) ≤ℤ exact_yield bal (pos l) (pos g)
exact_yield_mono bal zero f g h =
    rw (exact_yield-zero bal (pos 0) (pos f) (inr (omega arith)))
      (exact_yield-nonneg bal (pos 0) (pos g))
exact_yield_mono (negsuc b) (suc l) f g h =
    rw (exact_yield-zero (negsuc b) (pos (suc l)) (pos f) (inl (omega arith)))
      (exact_yield-nonneg (negsuc b) (pos (suc l)) (pos g))
exact_yield_mono (pos b) (suc l) f g h = elim (dec_lt f (suc l)) [
  | yes below ↦
      rw (exact_yield-pos b l f (omega arith), exact_yield-pos b l g (omega arith))
        (omega (arith, owed_mono b l f g h))
  | no above ↦
      rw (exact_yield-zero (pos b) (pos (suc l)) (pos f) (inr (omega arith)))
        (exact_yield-nonneg (pos b) (pos (suc l)) (pos g))
]

-- An update that succeeds takes nothing from what an account could collect.
pub update_yield_index-claimable :
    (views : Views) (f r l account : ℕ) (s s' : State)
    → s.yield_index ≡ some (pos f)
    → s.last_oracle_rate ≡ some (pos (suc r))
    → last_claimed_index account s ≡ pos l
    → update_yield_index views s ≡ ok (tt, s')
    → claimable account s ≤ℤ claimable account s'
unfolding claimable unsettled accrued_yield_index last_claimed_index
update_yield_index-claimable views f r l account s s' hf hr hl h =
    let u = update_yield_index_ok views f r s s' hf hr h in
    let fall = Updated-fell f r s s' u in
    let more = exact_yield_mono (get_amount s.balances account) l f u.index_after fall in
    let i : s'.yield_index ≡ some (pos u.index_after) = u.index in
    rw (u.frame, hf, hl, i) (omega (int_laws, more))
