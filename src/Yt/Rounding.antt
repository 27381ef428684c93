-- ===== src/Yt/Rounding.antt =====
-- The rounding of the yield index of YTToken over several updates.
use native.Mathlib.Nat.{div-lt_iff_lt-mul, mul-lt-mul_of_pos_left, div-eq_of_lt-le}
use native.Mathlib.Nat.{zero-mul, zero-div}
use principal.Base.{
  length, ℕ, zero, suc, ◌*◌, ◌/◌, ◌-◌, ◌+◌, ◌≤◌, ◌<◌, ◌≡◌, some, List, [], ◌∷◌, arith, unwrap_or,
  inl, inr, ◌∙◌,
}
use principal.Base.Int.{pos}
use principal.Host.{Views, ok, mul_div_cases}
use principal.Yt.Store.{State}
use principal.Yt.Accrual.{update_yield_index, advance_index}
use principal.Yt.Index.{update_cases}

-- Every rise of the rate, however small, takes at least one unit off the index, because the
-- quotient is rounded down.
rise-drops : (f r n : ℕ) → r < n → f * suc r / suc n ≤ f - 1
rise-drops zero r n lt = rw (zero-mul (suc r), zero-div (suc n)) (omega arith)
rise-drops (suc f) r n lt =
    let below : suc f * suc r / suc n < suc f =
      (div-lt_iff_lt-mul {k = suc n} {x = suc f * suc r} {y = suc f} (omega arith)).1
        (mul-lt-mul_of_pos_left (omega arith) (omega arith)) in
    omega (arith, below)

-- Updates that all succeed, each at a higher rate than the last.
pub data Rising (s : State) : List Views → State → Type 0 where
  start : Rising s [] s
  rise :
      {list : List Views} {t : State} (views : Views) (u : State) (r n : ℕ)
      → Rising s list t
      → t.last_oracle_rate ≡ some (pos (suc r))
      → views.get_reference_value (unwrap_or t.oracle 0) ≡ ok (pos (suc n))
      → r < n
      → update_yield_index views t ≡ ok (tt, u)
      → Rising s (views ∷ list) u

-- An update at a higher rate multiplies and rounds down.
pub rise_step :
    (views : Views) (g r n : ℕ) (t u : State)
    → t.yield_index ≡ some (pos g)
    → t.last_oracle_rate ≡ some (pos (suc r))
    → views.get_reference_value (unwrap_or t.oracle 0) ≡ ok (pos (suc n))
    → r < n
    → update_yield_index views t ≡ ok (tt, u)
    → (u.yield_index ≡ some (pos (g * suc r / suc n)))
      × (u.last_oracle_rate ≡ some (pos (suc n)))
      × (u.oracle ≡ t.oracle)
unfolding advance_index
rise_step views g r n t u hg hr hv lt h =
    let step = update_cases views r t u hr h in
    elim (mul_div_cases g (suc r) n) [
      | inr (p, e) ↦ absurd (ground (arith, step))
      | inl e ↦ (ground (arith, step), ground (arith, step), ground (arith, step))
    ]

-- After n updates, each at a higher rate than the one before, the index has lost at least n units,
-- however little the rate has risen in all.
pub Rising-drains :
    (f : ℕ) (s : State) (list : List Views) {t : State}
    → s.yield_index ≡ some (pos f)
    → Rising s list t
    → (g : ℕ) × (t.yield_index ≡ some (pos g)) × (g ≤ f - length list)
Rising-drains f s list hf Rising.start = (f, hf, omega arith)
Rising-drains f s list hf (Rising.rise {list = rest} {t} views u r n before hr hv lt h) =
    let (g, hg, low) = Rising-drains f s rest hf before in
    let step = rise_step views g r n t u hg hr hv lt h in
    (g * suc r / suc n, step.0, omega (arith, rise-drops g r n lt, low))

sub_twice : (f : ℕ) → f - 1 - 1 ≡ f - 2
sub_twice f = omega arith

drop_one : (f r d : ℕ) → 0 < f → r < d → f * d ≤ f * r + d → f * r / d ≡ f - 1
drop_one zero r d pf lt small = absurd (omega arith)
drop_one (suc f) r d pf lt small = div-eq_of_lt-le d {m = suc f * r} (grind arith) (grind arith)

-- The index does not depend on the first and the last rate alone: on an index of at least 2 at a
-- rate R of at least twice the index, a rise to R + 2 takes one unit off, and the same rise by way
-- of R + 1 takes two.
pub two_rises_cost_more :
    (f r : ℕ) (via last : Views) (s between after direct : State)
    → 2 ≤ f
    → f + f ≤ suc r
    → s.yield_index ≡ some (pos f)
    → s.last_oracle_rate ≡ some (pos (suc r))
    → via.get_reference_value (unwrap_or s.oracle 0) ≡ ok (pos (suc (suc r)))
    → last.get_reference_value (unwrap_or s.oracle 0) ≡ ok (pos (suc (suc (suc r))))
    → update_yield_index via s ≡ ok (tt, between)
    → update_yield_index last between ≡ ok (tt, after)
    → update_yield_index last s ≡ ok (tt, direct)
    → (after.yield_index ≡ some (pos (f - 2))) × (direct.yield_index ≡ some (pos (f - 1)))
two_rises_cost_more f r via last s between after direct two small hf hr v1 v2 u1 u2 u3 =
    let one = rise_step via f r (suc r) s between hf hr v1 (omega arith) u1 in
    let e1 : f * suc r / suc (suc r) ≡ f - 1 =
      drop_one f (suc r) (suc (suc r)) (omega arith) (omega arith) (grind arith) in
    let twice =
      rise_step last (f - 1) (suc r) (suc (suc r)) between after (rw e1 at one.0) one.1
        (rw one.2 v2) (omega arith) u2 in
    let e2 : (f - 1) * suc (suc r) / suc (suc (suc r)) ≡ f - 1 - 1 =
      drop_one (f - 1) (suc (suc r)) (suc (suc (suc r))) (omega arith) (omega arith)
        (grind arith) in
    let e3 : f * suc r / suc (suc (suc r)) ≡ f - 1 =
      drop_one f (suc r) (suc (suc (suc r))) (omega arith) (omega arith) (grind arith) in
    (
      rw (e2 ∙ sub_twice f) at twice.0,
      rw e3 at (rise_step last f r (suc (suc r)) s direct hf hr v2 (omega arith) u3).0,
    )
