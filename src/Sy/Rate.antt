-- ===== src/Sy/Rate.antt =====
-- The exchange rate of SYWrapper and its two conversions, for equal totals.
use native.Mathlib.Nat.{mul-div_cancel_left, mul-div_cancel}
use principal.Base.{ℕ, zero, suc, ◌*◌, ◌<◌, ◌^◌, ◌≡◌, subst, inl, inr, Bool-cases, ap, ◌∙◌, arith}
use principal.Base.Int.{is_zero, ℤ, pos, ◌≤ℤ◌, pos_of_nonneg}
use principal.Host.{ok, mul_div, mul_div_ok, mul_div_fits, and_then_ok}
use principal.Sy.Store.{
  State, rate_scale, total_underlying, total_shares, exchange_rate, underlying_to_shares,
  shares_to_underlying,
}

-- The totals are equal and not negative.
pub record IsPar (s : State) : Type 0 where
  pub equal : total_underlying s ≡ total_shares s
  pub nonneg : pos 0 ≤ℤ total_shares s

exchange_rate_at :
    (n : ℕ) (s : State) (rate : ℤ)
    → total_shares s ≡ pos n
    → total_underlying s ≡ pos n
    → exchange_rate s ≡ ok rate
    → rate ≡ rate_scale
unfolding exchange_rate total_shares total_underlying
exchange_rate_at zero s rate hs hu h = cc (rw hs at h)
exchange_rate_at (suc n) s rate hs hu h =
    mul_div_ok (suc n) 10000000 n (rw (hu, hs) at h)
    ∙ ap pos (mul-div_cancel_left 10000000 {n = suc n} (omega arith))

-- While the totals agree, the exchange rate is one.
pub exchange_rate-par :
    (s : State) (rate : ℤ) → IsPar s → exchange_rate s ≡ ok rate → rate ≡ rate_scale
exchange_rate-par s rate par h =
    let (n, e) = pos_of_nonneg (total_shares s) par.nonneg in
    exchange_rate_at n s rate e (par.equal ∙ e) h

pub underlying_to_shares-par :
    (m : ℕ) (s : State) (shares : ℤ)
    → IsPar s
    → underlying_to_shares (pos m) s ≡ ok shares
    → shares ≡ pos m
unfolding underlying_to_shares
underlying_to_shares-par m s shares par h = elim (Bool-cases (is_zero (total_shares s))) [
  | inl none_yet ↦ cc (rw none_yet at h)
  | inr some_yet ↦
      let (rate, e, g) = and_then_ok (exchange_rate s) (rw some_yet at h) in
      mul_div_ok m 10000000 9999999
        (subst (λ r. mul_div (pos m) rate_scale r ≡ ok shares) (exchange_rate-par s rate par e) g)
      ∙ ap pos (mul-div_cancel m {n = 10000000} (omega arith))
]

pub shares_to_underlying-par :
    (m : ℕ) (s : State) (amount : ℤ)
    → IsPar s
    → shares_to_underlying (pos m) s ≡ ok amount
    → amount ≡ pos m
unfolding shares_to_underlying
shares_to_underlying-par m s amount par h =
    let (rate, e, g) = and_then_ok (exchange_rate s) h in
    mul_div_ok m 10000000 9999999
      (subst (λ r. mul_div (pos m) r rate_scale ≡ ok amount) (exchange_rate-par s rate par e) g)
    ∙ ap pos (mul-div_cancel m {n = 10000000} (omega arith))

-- It returns that rate as long as the scaled total fits an `i128`.
pub exchange_rate-fits :
    (n : ℕ) (s : State)
    → IsPar s
    → total_shares s ≡ pos n
    → n * 10000000 < 2 ^ 127
    → exchange_rate s ≡ ok rate_scale
unfolding exchange_rate
exchange_rate-fits zero s par e fits = rw e
exchange_rate-fits (suc n) s par e fits =
    rw (par.equal, e)
      (mul_div_fits (suc n) 10000000 n fits
        ∙ ap (λ r. ok (pos r)) (mul-div_cancel_left 10000000 {n = suc n} (omega arith)))
