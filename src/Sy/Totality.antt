-- ===== src/Sy/Totality.antt =====
-- When a deposit returns: the conditions under which no guard and no arithmetic stops it.
use native.Mathlib.Nat.{mul-div_cancel}
use principal.Base.{
  refl, ℕ, zero, suc, ◌+◌, ◌*◌, ◌<◌, ◌^◌, ◌≡◌, true, false, some, arith, unwrap_or, ap, ◌∙◌,
}
use principal.Base.Int.{ℤ, pos, ◌+ℤ◌}
use principal.Base.Balances.{get_amount, put_on}
use principal.Host.{Env, Views, ok, is_authorized, called_by, checked, checked_pos, mul_div_fits}
use principal.Token.{Token}
use principal.Sy.Store.{State, total_underlying, total_shares, underlying_to_shares}
use principal.Sy.Entry.{deposit, deposit_effects}
use principal.Sy.Effects.{IsCleared}
use principal.Sy.Rate.{IsPar, exchange_rate-fits}
use principal.Sy.Soundness.{IsSound, IsSound-IsPar}

-- At par the shares of a deposit are its amount, and computing them does not overflow.
underlying_to_shares-fits :
    (n m : ℕ) (s : State)
    → IsPar s
    → total_shares s ≡ pos n
    → (n + m) * 10000000 < 2 ^ 127
    → underlying_to_shares (pos m) s ≡ ok (pos m)
unfolding underlying_to_shares
underlying_to_shares-fits zero m s par e fits = rw e
underlying_to_shares-fits (suc n) m s par e fits =
    rw (e, exchange_rate-fits (suc n) s par e (omega (arith, fits)))
      (mul_div_fits m 10000000 9999999 (omega (arith, fits))
        ∙ ap (λ r. ok (pos r)) (mul-div_cancel m {n = 10000000} (omega arith)))

-- A depositor who may deposit `m + 1` units into a wrapper of `n` shares, and room for them.
pub record CanDeposit (views : Views) (env : Env) (from m n : ℕ) (s : State) : Type 0 where
  pub sound : IsSound s
  pub signed : is_authorized env from ≡ true
  pub running : unwrap_or s.paused false ≡ false
  pub cleared : IsCleared views s from
  pub total : total_shares s ≡ pos n
  pub fits : (n + suc m) * 10000000 < 2 ^ 127

-- A sum of natural numbers that fits is computed.
pub pos-add : (a b : ℕ) → (pos a +ℤ pos b) ≡ pos (a + b)
unfolding ◌+ℤ◌
pos-add a b = ground arith

sum_fits : (a b : ℕ) {x : ℤ} → x ≡ pos a → a + b < 2 ^ 127 → checked (x +ℤ pos b) ≡ ok (x +ℤ pos b)
sum_fits a b e fits = rw (e, pos-add a b) (checked_pos (a + b) fits)

-- The state after such a deposit.
abbrev pub deposited : ℕ → ℕ → State → State
deposited from m s = record s {
  total_underlying = some (total_underlying s +ℤ pos (suc m));
  total_shares = some (total_shares s +ℤ pos (suc m));
  balances = put_on s.balances from (pos (suc m));
}

deposit_effects_runs :
    (views : Views) (env : Env) (from m n b : ℕ) (s : State)
    → (c : CanDeposit views env from m n s) → get_amount s.balances from ≡ pos b
    → b + suc m < 2 ^ 127
    → deposit_effects views env from (pos (suc m)) s
      ≡ ok ((c.cleared.asset, pos (suc m)), deposited from m s)
unfolding deposit_effects total_underlying total_shares
deposit_effects_runs views env from m n b s c hb room =
    let shares = underlying_to_shares-fits n (suc m) s (IsSound-IsPar c.sound) c.total c.fits in
    let fu = sum_fits n (suc m) (c.sound.equal ∙ c.total) (omega (arith, c.fits)) in
    let fs = sum_fits n (suc m) c.total (omega (arith, c.fits)) in
    let fb = sum_fits b (suc m) hb room in
    ground (
      arith, c.signed, c.running, c.cleared.underlying, c.cleared.permissioning, c.cleared.on_sac,
      c.cleared.permitted, fu, fs, fb, shares,
    )

module _ (token : Token) where
  open token use {Ledger}

  -- A deposit that may be made (a wrapper with sound books that is not paused, a depositor who has
  -- signed and is cleared on both layers, room for the new totals) and that the token pays for
  -- succeeds, and returns as many shares as it takes units.
  pub deposit_runs :
      (views : Views) (env : Env) (from m n b : ℕ) (s : State) (l l' : Ledger)
      → (c : CanDeposit views env from m n s) → get_amount s.balances from ≡ pos b
      → b + suc m < 2 ^ 127
      → token.transfer c.cleared.asset
          (called_by env c.cleared.asset)
          from
          env.current
          (pos (suc m))
          l
        ≡ ok l'
      → deposit token views env from (pos (suc m)) (s, l)
        ≡ ok (pos (suc m), (deposited from m s, l'))
  unfolding deposit
  deposit_runs views env from m n b s l l' c hb room paid =
      rw (deposit_effects_runs views env from m n b s c hb room, paid) refl
