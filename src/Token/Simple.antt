-- ===== src/Token/Simple.antt =====
-- A token contract that meets the assumptions: natural amounts for each asset and account.
use principal.Base.{ℕ, ◌+◌, ◌-◌, ◌≡◌, ◌≢◌, arith, leb, ◌==◌, if◌then◌else◌}
use principal.Base.Int.{ℤ, pos, negsuc, ◌+ℤ◌, ◌-ℤ◌}
use principal.Host.{Env, Result, ok, err}
use principal.Host.Errors.{Panic}
use principal.Token.{Token}

abbrev pub Amounts : Type 0
Amounts = ℕ → ℕ → ℕ

abbrev pub moved : ℕ → ℕ → ℕ → ℕ → Amounts → Amounts
moved asset from to n l other a =
    if other == asset
    then (l other a - (if from == a then n else 0)) + (if to == a then n else 0)
    else l other a

abbrev pub transfer : ℕ → Env → ℕ → ℕ → ℤ → Amounts → Result Amounts
transfer asset env from to (pos n) l =
    if leb n (l asset from) then ok (moved asset from to n l) else err Panic.token
transfer asset env from to (negsuc n) l = err Panic.token

pub transfer-moves :
    (asset : ℕ) (env : Env) (from to : ℕ) (amount : ℤ) (l l' : Amounts)
    → transfer asset env from to amount l ≡ ok l'
    → (a : ℕ)
    → pos (l' asset a)
      ≡ (pos (l asset a) -ℤ (if from == a then amount else pos 0))
        +ℤ (if to == a then amount else pos 0)
unfolding ◌+ℤ◌ ◌-ℤ◌
transfer-moves asset env from to (pos n) l l' h a = ground arith
transfer-moves asset env from to (negsuc n) l l' h a = cc

pub transfer-others :
    (asset : ℕ) (env : Env) (from to : ℕ) (amount : ℤ) (l l' : Amounts)
    → transfer asset env from to amount l ≡ ok l'
    → (other : ℕ) → other ≢ asset
    → (a : ℕ) → pos (l' other a) ≡ pos (l other a)
transfer-others asset env from to (pos n) l l' h other ne a = ground arith
transfer-others asset env from to (negsuc n) l l' h other ne a = cc

abbrev pub simple : Token
simple = record {
  Ledger = Amounts;
  balance = λ asset l a. pos (l asset a);
  transfer = transfer;
  balance_nonneg = λ asset l a. omega arith;
  transfer_moves = transfer-moves;
  transfer_others = transfer-others;
}
