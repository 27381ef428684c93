-- ===== src/Tests/Unit.antt =====
-- How the repository's unit tests (the `mod test` of each contracts/*/src/lib.rs) are run here: a
-- test is a call sequence on a contract's storage.
use Prim.Native.Nat.{Ordering}
use Prim.Native.String.{String, compare}
use principal.Base.{ℕ, Bool, true, false, none, List, [], ◌∷◌, ◌&&◌}
use principal.Base.Int.{ℤ, leb_ℤ}
use principal.Host.{Env, M, ok, err}

-- `env.mock_all_auths()`: every address has signed.
abbrev pub mocked : ℕ → Env
mocked timestamp = record {
  timestamp = timestamp;
  sequence = 0;
  signed = λ a. true;
  invoker = none;
  current = 0;
}

-- The assertions of a test hold.
abbrev pub passes : {S : Type 0} → S → M S Bool → Bool
passes s test = elim (test s) [ ok r ↦ r.0 | err _ ↦ false ]

-- `#[should_panic]`
abbrev pub should_panic : {S A : Type 0} → S → M S A → Bool
should_panic s test = elim (test s) [ ok _ ↦ false | err _ ↦ true ]

abbrev pub all : List Bool → Bool
all [] = true
all (b ∷ bs) = b && all bs

abbrev pub eq_ℤ : ℤ → ℤ → Bool
eq_ℤ a b = leb_ℤ a b && leb_ℤ b a

abbrev pub same_text : String → String → Bool
same_text a b = elim (compare a b) [ Ordering.eq ↦ true | _ ↦ false ]
