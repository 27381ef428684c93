-- ===== src/Host.antt =====
-- The Soroban host, as far as the contracts use it: the ledger's clock, authorization, panics.
pub mod Errors
mod Monad
mod Arith
pub use Errors.{Panic}
pub use Monad.*
unfoldable pub use Arith.*
use principal.Base.{ℕ, ◌≡◌, refl, Bool, not, ◌||◌, Option, some, List, [], ◌∷◌, All, holds}
use principal.Base.Int.{ℤ}
use Errors.{auth}

-- What a contract sees of its invocation. `signed` are the addresses whose signature covers the
-- call, `invoker` the contract that makes it, if a contract does, `current` the contract called.
pub record Env : Type 0 where
  pub timestamp : ℕ
  pub sequence : ℕ
  pub signed : ℕ → Bool
  pub invoker : Option ℕ
  pub current : ℕ

-- An address has authorized a call if its signature covers it, or if it is the direct invoker.
abbrev pub is_authorized : Env → ℕ → Bool
is_authorized env a = env.signed a || holds env.invoker a

-- `address.require_auth()`
abbrev pub require_auth : {S : Type 0} → Env → ℕ → M S Unit
require_auth env a = panic_if (not (is_authorized env a)) auth

-- The environment of a call that a contract makes: the invoker's own authorization reaches one
-- frame, the signatures reach every frame.
abbrev pub called_by : Env → ℕ → Env
called_by env callee = record env { invoker = some env.current; current = callee }

-- The state after a transaction: what the call wrote, or the state before a call that panicked.
abbrev pub commit : {S A : Type 0} → S → Result (A × S) → S
commit s (ok (_, s')) = s'
commit s (err _) = s

-- The read-only calls that a contract makes, by the address called: what `Permissioning`,
-- `OracleAdapter` and the Stellar Asset Contract of the underlying asset answer. A failed call, as
-- of an address that holds no such contract, aborts the caller too.
pub record Views : Type 0 where
  pub is_allowed : ℕ → ℕ → Result Bool
  pub is_allowed_for_asset : ℕ → ℕ → ℕ → Result Bool
  pub sac_authorized : ℕ → ℕ → Result Bool
  pub sac_admin : ℕ → Result ℕ
  pub get_reference_value : ℕ → Result ℤ
  pub is_fresh : ℕ → ℕ → Result Bool

-- A property of the state before a call and of the state after a successful one holds after the
-- transaction.
pub commit_induction :
    {S A : Type 0} (P : S → Type 0) (s : S) (r : Result (A × S))
    → P s
    → ((a : A) (s' : S) → r ≡ ok (a, s') → P s')
    → P (commit s r)
commit_induction P s (ok (a, s')) before after = after a s' refl
commit_induction P s (err p) before after = before

-- Transactions one after another, each in its own environment.
unfoldable pub run_all : {S Call : Type 0} → (Call → S → S) → List Call → S → S
run_all apply [] s = s
run_all apply (call ∷ calls) s = run_all apply calls (apply call s)

-- An invariant of every call of a list is one of the list.
pub run_all_induction :
    {S Call : Type 0} (P : S → Type 0) (Q : Call → Type 0) (apply : Call → S → S)
    → ((call : Call) (s : S) → Q call → P s → P (apply call s))
    → (calls : List Call) (s : S) → All Q calls
    → P s
    → P (run_all apply calls s)
unfolding run_all
run_all_induction P Q apply step [] s q h = h
run_all_induction P Q apply step (call ∷ calls) s q h =
    run_all_induction P Q apply step calls (apply call s) q.1 (step call s q.0 h)

-- What a call returned, `other` if it failed.
abbrev pub value_or : Result ℤ → ℤ → ℤ
value_or (ok v) other = v
value_or (err _) other = other
