-- ===== src/Yt/Index.antt =====
-- `update_yield_index` of YTToken, once and many times.
use native.Mathlib.Nat.{div-mul-le_self, div-le_of_le-mul, le_trans, mul-le-mul_right, mul_comm}
use native.Mathlib.Decide.{dec_lt}
use principal.Base.{
  All-trivial, ℕ, zero, suc, ◌*◌, ◌/◌, ◌≤◌, ◌<◌, ◌≡◌, ◌⊎◌, refl, some, List, arith, unwrap_or, inl,
  inr, if◌then◌else◌,
}
use principal.Base.Int.{ℤ, pos, negsuc, ltb_ℤ}
use principal.Host.{
  Views, ok, err, mul_div_cases, commit, commit_induction, run_all, run_all_induction,
}
use principal.Yt.Store.{State}
use principal.Yt.Accrual.{update_yield_index, advance_index}

-- What an update that succeeds has done to an index `f` that was taken at the rate `r + 1`.
pub record Updated (f r : ℕ) (s s' : State) : Type 0 where
  pub index_after : ℕ
  pub rate_after : ℕ
  pub index : s'.yield_index ≡ some (pos index_after)
  pub rate : s'.last_oracle_rate ≡ some (pos (suc rate_after))
  pub frame : s' ≡ record s { yield_index = s'.yield_index; last_oracle_rate = s'.last_oracle_rate }
  pub formula :
      ((rate_after ≡ r) × (index_after ≡ f))
      ⊎ ((r < rate_after) × (index_after ≡ f * suc r / suc rate_after))

same_Updated :
    (f r : ℕ) (s s' : State)
    → s.yield_index ≡ some (pos f)
    → s.last_oracle_rate ≡ some (pos (suc r))
    → s' ≡ s
    → Updated f r s s'
same_Updated f r s s' hf hr e = rw e (record {
  index_after = f;
  rate_after = r;
  index = hf;
  rate = hr;
  frame = refl;
  formula = inl (refl, refl);
})

advance_index-Updated :
    (f r n : ℕ) (s s' : State)
    → r < n
    → s.yield_index ≡ some (pos f)
    → advance_index (pos (suc n)) (pos (suc r)) s ≡ ok (tt, s')
    → Updated f r s s'
unfolding advance_index
advance_index-Updated f r n s s' lt hf h = elim (mul_div_cases f (suc r) n) [
  | inr (p, e) ↦ cc (rw (hf, e) at h)
  | inl e ↦ record {
    index_after = f * suc r / suc n;
    rate_after = n;
    index = ground arith;
    rate = ground arith;
    frame = ground arith;
    formula = inr (lt, refl);
  }
]

-- The rate that the market's oracle answers, 0 if it does not.
abbrev pub answered : Views → State → ℤ
answered views s = elim (views.get_reference_value (unwrap_or s.oracle 0)) [
  | ok v ↦ v
  | err _ ↦ pos 0
]

pub update_cases :
    (views : Views) (r : ℕ) (s s' : State)
    → s.last_oracle_rate ≡ some (pos (suc r))
    → update_yield_index views s ≡ ok (tt, s')
    → (if ltb_ℤ (pos (suc r)) (answered views s)
        then advance_index (answered views s) (pos (suc r)) s
        else ok (tt, s))
      ≡ ok (tt, s')
unfolding update_yield_index
update_cases views r s s' hr h = ground arith

by_answer :
    (v : ℤ) (f r : ℕ) (s s' : State)
    → s.yield_index ≡ some (pos f)
    → s.last_oracle_rate ≡ some (pos (suc r))
    → (if ltb_ℤ (pos (suc r)) v then advance_index v (pos (suc r)) s else ok (tt, s)) ≡ ok (tt, s')
    → Updated f r s s'
by_answer (pos zero) f r s s' hf hr h = same_Updated f r s s' hf hr (ground arith)
by_answer (negsuc n) f r s s' hf hr h = same_Updated f r s s' hf hr (ground arith)
by_answer (pos (suc n)) f r s s' hf hr h = elim (dec_lt r n) [
  | yes lt ↦ advance_index-Updated f r n s s' lt hf (ground arith)
  | no ge ↦ same_Updated f r s s' hf hr (ground arith)
]

-- An update that succeeds leaves everything as it was, or stores a higher rate and the index times
-- the old rate divided by the new one, rounded down.
pub update_yield_index_ok :
    (views : Views) (f r : ℕ) (s s' : State)
    → s.yield_index ≡ some (pos f)
    → s.last_oracle_rate ≡ some (pos (suc r))
    → update_yield_index views s ≡ ok (tt, s')
    → Updated f r s s'
update_yield_index_ok views f r s s' hf hr h =
    by_answer (answered views s) f r s s' hf hr (update_cases views r s s' hr h)

-- What is known of the index and the rate of a contract since the index was `f` at the rate `r + 1`.
pub record Since (f r : ℕ) (s : State) : Type 0 where
  pub index : ℕ
  pub rate : ℕ
  pub has_index : s.yield_index ≡ some (pos index)
  pub has_rate : s.last_oracle_rate ≡ some (pos (suc rate))
  pub fell : index ≤ f
  pub rose : r ≤ rate
  pub bounded : index * suc rate ≤ f * suc r

-- The index never rises.
pub Updated-fell : (f r : ℕ) (s s' : State) (u : Updated f r s s') → u.index_after ≤ f
Updated-fell f r s s' u = elim u.formula [
  | inl same ↦ omega (arith, same.1)
  | inr rise ↦ rw rise.1 (
      div-le_of_le-mul (suc u.rate_after)
        (rw (mul_comm f (suc r)) (mul-le-mul_right f (omega (arith, rise.0)))))
]

Updated-Since :
    (f r g q : ℕ) (s s' : State)
    → Updated g q s s'
    → g ≤ f
    → r ≤ q
    → g * suc q ≤ f * suc r
    → Since f r s'
Updated-Since f r g q s s' u hg hq hp = elim u.formula [
  | inl same ↦ record {
    index = u.index_after;
    rate = u.rate_after;
    has_index = u.index;
    has_rate = u.rate;
    fell = rw same.1 hg;
    rose = rw same.0 hq;
    bounded = rw (same.1, same.0) hp;
  }
  | inr rise ↦ record {
    index = u.index_after;
    rate = u.rate_after;
    has_index = u.index;
    has_rate = u.rate;
    fell = le_trans (Updated-fell g q s s' u) hg;
    rose = omega (arith, rise.0);
    bounded = le_trans (rw rise.1 (div-mul-le_self (g * suc q) (suc u.rate_after))) hp;
  }
]

-- Updates by anybody, one after another.
abbrev pub updates : List Views → State → State
updates = run_all (λ views s. commit s (update_yield_index views s))

-- Over any number of updates the index only falls, the rate it stands at only rises, and the index
-- never exceeds the old index times the old rate divided by the new rate.
pub updates-Since :
    (f r : ℕ) (list : List Views) (s : State) → Since f r s → Since f r (updates list s)
updates-Since f r list s h =
    run_all_induction (Since f r) (λ _. Unit {0}) (λ views s. commit s (update_yield_index views s))
      (λ views s _ k. commit_induction (Since f r) s (update_yield_index views s) k λ _ s' e.
        Updated-Since f r k.index k.rate s s'
          (update_yield_index_ok views k.index k.rate s s' k.has_index k.has_rate e) k.fell k.rose
          k.bounded)
      list s (All-trivial list) h
