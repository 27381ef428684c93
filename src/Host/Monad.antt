-- ===== src/Host/Monad.antt =====
-- A contract call: it reads and writes the contract's state and may panic. A panic aborts the whole
-- transaction and the host rolls its writes back, so no state comes back with an error.
use principal.Base.{◌≡◌, refl, Bool, true, false, Option, none, some}
use principal.Host.Errors.{Panic}

pub data Result {ℓ} (A : Type ℓ) : Type ℓ where
  ok : A → Result A
  err : Panic → Result A

abbrev pub and_then {ℓ κ} : {A : Type ℓ} {B : Type κ} → Result A → (A → Result B) → Result B
and_then (ok a) f = f a
and_then (err p) f = err p

pub and_then_ok {ℓ κ} :
    {A : Type ℓ} {B : Type κ} (r : Result A) {f : A → Result B} {b : B}
    → and_then r f ≡ ok b
    → (a : A) × (r ≡ ok a) × (f a ≡ ok b)
and_then_ok (ok a) h = (a, refl, h)
and_then_ok (err p) h = cc

pub ok-injective {ℓ} : {A : Type ℓ} {a b : A} → ok a ≡ ok b → a ≡ b
ok-injective h = cc

abbrev pub M {ℓ} : Type ℓ → Type ℓ → Type ℓ
M S A = S → Result (A × S)

module _ {ℓ} {S A : Type ℓ} where
  abbrev pub pure : A → M S A
  pure a s = ok (a, s)

  -- A step that does not touch this contract's state.
  abbrev pub lift : Result A → M S A
  lift (ok a) s = ok (a, s)
  lift (err p) s = err p

  abbrev pub gets : (S → A) → M S A
  gets f s = ok (f s, s)

  -- `storage.get(&key).unwrap_or_else(|| panic_with_error!(error))`
  abbrev pub gets_or_panic : (S → Option A) → Panic → M S A
  gets_or_panic f p s = elim (f s) [ none ↦ err p | some a ↦ ok (a, s) ]

module _ {S : Type 0} where
  abbrev pub modify : (S → S) → M S Unit
  modify f s = ok (tt, f s)

  -- `if c { panic_with_error!(error) }`
  abbrev pub panic_if : Bool → Panic → M S Unit
  panic_if true p s = err p
  panic_if false p s = ok (tt, s)

infixl 5 ◌>>=◌ ◌>>◌
abbrev pub ◌>>=◌ {ℓ} : {S A B : Type ℓ} → M S A → (A → M S B) → M S B
◌>>=◌ m f s = and_then (m s) (λ r. f r.0 r.1)

abbrev pub ◌>>◌ {ℓ} : {S A B : Type ℓ} → M S A → M S B → M S B
m >> k = m >>= λ _. k
