-- ===== src/Host/Arith.antt =====
-- `i128` and `u64` arithmetic. The release profile of Cargo.toml sets `overflow-checks = true` and
-- `panic = "abort"`, so an operation whose value does not fit aborts the transaction.
use principal.Base.{
  refl, inr, inl, ◌⊎◌, ap, ◌∙◌, ◌*◌, ◌/◌, suc, ℕ, ◌-◌, ◌^◌, ◌<◌, ◌≡◌, Bool, arith, ltb,
  if◌then◌else◌,
}
use principal.Base.Int.{quot_ℤ-pos, pos-*ℤ, ℤ, pos, negsuc, ◌+ℤ◌, ◌-ℤ◌, ◌*ℤ◌, quot_ℤ, is_zero}
use principal.Host.Errors.{Panic, overflow, div_by_zero}
use native.Mathlib.Nat.{lt_of_le_of_lt, div-le_self}
use principal.Host.Monad.{and_then, and_then_ok, Result, ok, err}

-- `i128::MIN ≤ x ≤ i128::MAX`
unfoldable pub in_i128 : ℤ → Bool
in_i128 (pos n) = ltb n (2 ^ 127)
in_i128 (negsuc n) = ltb n (2 ^ 127)

unfoldable pub checked : ℤ → Result ℤ
checked x = if in_i128 x then ok x else err overflow

infixl 65 ◌+?◌ ◌-?◌
infixl 70 ◌*?◌ ◌/?◌
abbrev pub ◌+?◌ : ℤ → ℤ → Result ℤ
a +? b = checked (a +ℤ b)

abbrev pub ◌-?◌ : ℤ → ℤ → Result ℤ
a -? b = checked (a -ℤ b)

abbrev pub ◌*?◌ : ℤ → ℤ → Result ℤ
a *? b = checked (a *ℤ b)

abbrev pub ◌/?◌ : ℤ → ℤ → Result ℤ
a /? b = if is_zero b then err div_by_zero else checked (quot_ℤ a b)

-- `u64` subtraction.
abbrev pub sub_u64 : ℕ → ℕ → Result ℕ
sub_u64 a b = if ltb a b then err overflow else ok (a - b)

-- What a checked operation returns is the exact value.
pub checked_ok : (x : ℤ) {y : ℤ} → checked x ≡ ok y → y ≡ x
unfolding checked
checked_ok x h = ground arith

pub checked_pos : (n : ℕ) → n < 2 ^ 127 → checked (pos n) ≡ ok (pos n)
unfolding checked in_i128
checked_pos n h = ground arith

-- `a * b / c`, from the left, as every conversion of the contracts is written.
unfoldable pub mul_div : ℤ → ℤ → ℤ → Result ℤ
mul_div a b c = and_then (a *? b) (λ product. product /? c)

-- Of numbers that are not negative, `mul_div` is the rounded-down quotient, if it returns.
pub mul_div_ok :
    (a b c : ℕ) {y : ℤ} → mul_div (pos a) (pos b) (pos (suc c)) ≡ ok y → y ≡ pos (a * b / suc c)
unfolding mul_div
mul_div_ok a b c h =
    let (product, e, g) = and_then_ok (pos a *? pos b) h in
    checked_ok _ g
    ∙ ap (λ x. quot_ℤ x (pos (suc c))) (checked_ok _ e ∙ pos-*ℤ a b)
    ∙ quot_ℤ-pos (a * b) (suc c)

-- It returns if the product fits.
pub mul_div_fits :
    (a b c : ℕ) → a * b < 2 ^ 127 → mul_div (pos a) (pos b) (pos (suc c)) ≡ ok (pos (a * b / suc c))
unfolding mul_div
mul_div_fits a b c h =
    rw (pos-*ℤ, checked_pos (a * b) h, quot_ℤ-pos)
      (checked_pos (a * b / suc c) (lt_of_le_of_lt (div-le_self (a * b) (suc c)) h))

-- The two outcomes of a checked operation, for the proofs that split on them.
pub checked_cases : (x : ℤ) → (checked x ≡ ok x) ⊎ (checked x ≡ err overflow)
unfolding checked
checked_cases x = ground arith

pub mul_div_cases :
    (a b c : ℕ)
    → (mul_div (pos a) (pos b) (pos (suc c)) ≡ ok (pos (a * b / suc c)))
      ⊎ ((p : Panic) × (mul_div (pos a) (pos b) (pos (suc c)) ≡ err p))
mul_div_cases a b c = go (mul_div (pos a) (pos b) (pos (suc c))) refl
  where
    go :
        (r : Result ℤ)
        → mul_div (pos a) (pos b) (pos (suc c)) ≡ r
        → (mul_div (pos a) (pos b) (pos (suc c)) ≡ ok (pos (a * b / suc c)))
          ⊎ ((p : Panic) × (mul_div (pos a) (pos b) (pos (suc c)) ≡ err p))
    go (ok y) e = inl (e ∙ ap ok (mul_div_ok a b c e))
    go (err p) e = inr (p, e)
