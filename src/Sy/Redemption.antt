-- ===== src/Sy/Redemption.antt =====
-- When a withdrawal returns: the conditions under which no guard and no arithmetic stops it.
use native.Mathlib.Nat.{mul-div_cancel}
use principal.Base.{
  refl, ℕ, suc, ◌-◌, ◌*◌, ◌<◌, ◌≤◌, ◌^◌, ◌≡◌, true, false, some, arith, unwrap_or, ap, ◌∙◌,
}
use principal.Base.Int.{ℤ, pos, ◌-ℤ◌, int_laws}
use principal.Base.Balances.{get_amount, get_amount-le-sum, take_off}
use principal.Host.{Env, Views, ok, is_authorized, called_by, checked, checked_pos, mul_div_fits}
use principal.Token.{Token}
use principal.Sy.Store.{State, total_underlying, total_shares, shares_to_underlying}
use principal.Sy.Entry.{withdraw, withdraw_effects}
use principal.Sy.Effects.{IsCleared}
use principal.Sy.Rate.{IsPar, exchange_rate-fits}
use principal.Sy.Soundness.{IsSound, IsSound-IsPar}

-- At par the amount that shares pay is their number, and computing it does not overflow.
shares_to_underlying-fits :
    (n m : ℕ) (s : State)
    → IsPar s
    → total_shares s ≡ pos n
    → m ≤ n
    → n * 10000000 < 2 ^ 127
    → shares_to_underlying (pos m) s ≡ ok (pos m)
unfolding shares_to_underlying
shares_to_underlying-fits n m s par e le fits = rw (exchange_rate-fits n s par e fits) (
    mul_div_fits m 10000000 9999999 (omega (arith, fits))
    ∙ ap (λ r. ok (pos r)) (mul-div_cancel m {n = 10000000} (omega arith)))

-- A holder of `b` shares who may withdraw `m + 1` of them from a wrapper of `n`.
pub record CanWithdraw (views : Views) (env : Env) (from to m n b : ℕ) (s : State) : Type 0 where
  pub sound : IsSound s
  pub signed : is_authorized env from ≡ true
  pub running : unwrap_or s.paused false ≡ false
  pub from_cleared : IsCleared views s from
  pub to_cleared : IsCleared views s to
  pub total : total_shares s ≡ pos n
  pub fits : n * 10000000 < 2 ^ 127
  pub held : get_amount s.balances from ≡ pos b
  pub enough : suc m ≤ b

-- A difference of natural numbers that fits is computed.
pos-sub : (a b : ℕ) → b ≤ a → (pos a -ℤ pos b) ≡ pos (a - b)
unfolding ◌-ℤ◌
pos-sub a b le = ground arith

pub difference_fits :
    (a b : ℕ) {x : ℤ} → x ≡ pos a → b ≤ a → a < 2 ^ 127 → checked (x -ℤ pos b) ≡ ok (x -ℤ pos b)
difference_fits a b e le fits = rw (e, pos-sub a b le) (checked_pos (a - b) (omega (arith, fits)))

-- The state after such a withdrawal.
abbrev pub withdrawn : ℕ → ℕ → State → State
withdrawn from m s = record s {
  total_underlying = some (total_underlying s -ℤ pos (suc m));
  total_shares = some (total_shares s -ℤ pos (suc m));
  balances = take_off s.balances from (pos (suc m));
}

-- Nobody holds more shares than there are.
pub held-le-total :
    (views : Views) (env : Env) (from to m n b : ℕ) (s : State)
    → CanWithdraw views env from to m n b s
    → b ≤ n
held-le-total views env from to m n b s c =
    grind
      (int_laws, get_amount-le-sum s.balances from c.sound.nonneg, c.held, c.sound.summed, c.total)

withdraw_effects_runs :
    (views : Views) (env : Env) (from to m n b : ℕ) (s : State)
    → (c : CanWithdraw views env from to m n b s)
    → withdraw_effects views env from (pos (suc m)) to s
      ≡ ok ((c.from_cleared.asset, pos (suc m)), withdrawn from m s)
unfolding withdraw_effects total_underlying total_shares
withdraw_effects_runs views env from to m n b s c =
    let le = held-le-total views env from to m n b s c in
    let paid =
      shares_to_underlying-fits n (suc m) s (IsSound-IsPar c.sound) c.total
        (omega (arith, le, c.enough)) c.fits in
    let fu =
      difference_fits n (suc m) (c.sound.equal ∙ c.total) (omega (arith, le, c.enough))
        (omega (arith, c.fits)) in
    let fs =
      difference_fits n (suc m) c.total (omega (arith, le, c.enough)) (omega (arith, c.fits)) in
    let fb = difference_fits b (suc m) c.held c.enough (omega (arith, le, c.fits)) in
    ground (
      arith, c.signed, c.running, c.from_cleared.underlying, c.from_cleared.permissioning,
      c.from_cleared.on_sac, c.from_cleared.permitted, c.to_cleared.underlying,
      c.to_cleared.permissioning, c.to_cleared.on_sac, c.to_cleared.permitted, c.held, c.enough, fu,
      fs, fb, paid,
    )

module _ (token : Token) where
  open token use {Ledger}

  -- A withdrawal that may be made (a wrapper with sound books that is not paused, a holder who has
  -- signed and has the shares, holder and receiver cleared on both layers, a total that fits the
  -- arithmetic) and that the token pays out succeeds, and returns one unit for each share.
  pub withdraw_runs :
      (views : Views) (env : Env) (from to m n b : ℕ) (s : State) (l l' : Ledger)
      → (c : CanWithdraw views env from to m n b s)
      → token.transfer c.from_cleared.asset
          (called_by env c.from_cleared.asset)
          env.current
          to
          (pos (suc m))
          l
        ≡ ok l'
      → withdraw token views env from (pos (suc m)) to (s, l)
        ≡ ok (pos (suc m), (withdrawn from m s, l'))
  unfolding withdraw
  withdraw_runs views env from to m n b s l l' c paid =
      rw (withdraw_effects_runs views env from to m n b s c, paid) refl
