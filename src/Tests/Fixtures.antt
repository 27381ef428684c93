-- ===== src/Tests/Fixtures.antt =====
-- The world of the runs: who signs, and what the asset, the registry and the oracle answer.
use principal.Base.{true, ℕ, not, none, ◌==◌}
use principal.Base.Int.{ℤ}
use principal.Host.{Env, Views, ok}

-- A call signed by `who` to the contract `current`, at a time and a ledger number.
abbrev pub at_time : ℕ → ℕ → ℕ → ℕ → Env
at_time timestamp sequence who current = record {
  timestamp = timestamp;
  sequence = sequence;
  signed = λ a. a == who;
  invoker = none;
  current = current;
}

abbrev pub signed_by : ℕ → ℕ → Env
signed_by = at_time 1000 50

-- Everybody is cleared; the issuer is 1; the oracle is fresh and answers `rate`.
abbrev pub views_at : ℤ → Views
views_at rate = record {
  is_allowed = λ registry account. ok true;
  is_allowed_for_asset = λ registry account asset. ok true;
  sac_authorized = λ asset account. ok true;
  sac_admin = λ asset. ok 1;
  get_reference_value = λ oracle. ok rate;
  is_fresh = λ oracle max_stale. ok true;
}

-- The same, but the asset has deauthorized one account.
abbrev pub views_without : ℕ → ℤ → Views
views_without account rate = record (views_at rate) {
  sac_authorized = λ asset a. ok (not (a == account));
}
