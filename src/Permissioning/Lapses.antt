-- ===== src/Permissioning/Lapses.antt =====
-- Histories in which entries of the allow-lists stop being read: what the documentation expects of
-- `extend_ttl` in contracts/permissioning/src/lib.rs, whenever the host should do so.
use principal.Base.{
  ℕ, ◌≡◌, ◌∙◌, refl, Bool, true, false, not, ◌&&◌, ◌||◌, none, some, List, [], ◌∷◌, arith, All,
  ◌==◌, if◌then◌else◌,
}
use principal.Host.{Env, is_authorized}
use principal.Permissioning.{State, Call, apply, is_allowed, is_allowed_for_asset}
use principal.Permissioning.Eligibility.{apply-eq_self}

-- A call, or the end of an entry's lifetime.
pub data Event : Type 0 where
  called : Env → Call → Event
  account_lapses : ℕ → Event
  asset_lapses : ℕ → ℕ → Event

abbrev happen : Event → State → State
happen (called env call) s = apply env call s
happen (account_lapses account) s = record s {
  account_allowed = λ a. if account == a then none else s.account_allowed a;
}
happen (asset_lapses account asset) s = record s {
  asset_allowed = λ a b. if account == a && asset == b then none else s.asset_allowed a b;
}

abbrev pub run_events : List Event → State → State
run_events [] s = s
run_events (e ∷ events) s = run_events events (happen e s)

-- The calls of a history are not authorized by an address.
abbrev IsWithout : ℕ → Event → Type 0
IsWithout admin (called env call) = is_authorized env admin ≡ false
IsWithout admin (account_lapses a) = Unit
IsWithout admin (asset_lapses a b) = Unit

abbrev ends_account : ℕ → Event → Bool
ends_account a (account_lapses account) = account == a
ends_account a _ = false

abbrev ends_asset : ℕ → ℕ → Event → Bool
ends_asset a b (asset_lapses account asset) = account == a && asset == b
ends_asset a b _ = false

abbrev pub account_lapsed : ℕ → List Event → Bool
account_lapsed a [] = false
account_lapsed a (e ∷ events) = ends_account a e || account_lapsed a events

abbrev pub asset_lapsed : ℕ → ℕ → List Event → Bool
asset_lapsed a b [] = false
asset_lapsed a b (e ∷ events) = ends_asset a b e || asset_lapsed a b events

-- What one event leaves of the answers.
record Fades (s t : State) (account : ℕ → Bool) (asset : ℕ → ℕ → Bool) : Type 0 where
  admin_kept : t.admin ≡ s.admin
  accounts : (a : ℕ) → is_allowed a t ≡ (not (account a) && is_allowed a s)
  assets : (a b : ℕ) → is_allowed_for_asset a b t ≡ (not (asset a b) && is_allowed_for_asset a b s)

happen-Fades :
    (admin : ℕ) (e : Event) (s : State)
    → s.admin ≡ some admin
    → IsWithout admin e
    → Fades s (happen e s) (λ a. ends_account a e) (λ a b. ends_asset a b e)
unfolding is_allowed is_allowed_for_asset
happen-Fades admin (called env call) s h q =
    rw (apply-eq_self admin env call s h q)
      (record { admin_kept = refl; accounts = λ a. refl; assets = λ a b. refl })
happen-Fades admin (account_lapses x) s h q = record {
  admin_kept = refl;
  accounts = λ a. ground arith;
  assets = λ a b. refl;
}
happen-Fades admin (asset_lapses x y) s h q = record {
  admin_kept = refl;
  accounts = λ a. refl;
  assets = λ a b. ground arith;
}

both : (x y b : Bool) → (not y && (not x && b)) ≡ (not (x || y) && b)
both true true b = refl
both true false b = refl
both false true b = refl
both false false b = refl

-- Over any history of calls that the admin of an initialized contract has not authorized, in which
-- entries may also lapse and then read as absent, the admin stays, and an account, or an account for
-- an asset, is allowed at the end exactly if it was at the start and its entry has not lapsed.
pub run_events-fades :
    (admin : ℕ) (events : List Event) (s : State)
    → s.admin ≡ some admin
    → All (IsWithout admin) events
    → ((run_events events s).admin ≡ some admin)
      × ((a : ℕ)
          → is_allowed a (run_events events s) ≡ (not (account_lapsed a events) && is_allowed a s))
      × ((a b : ℕ)
          → is_allowed_for_asset a b (run_events events s)
            ≡ (not (asset_lapsed a b events) && is_allowed_for_asset a b s))
run_events-fades admin [] s h q = (h, λ a. refl, λ a b. refl)
run_events-fades admin (e ∷ events) s h q =
    let f = happen-Fades admin e s h q.0 in
    let (k, accounts, assets) = run_events-fades admin events (happen e s) (f.admin_kept ∙ h) q.1 in
    (
      k,
      λ a.
          rw (accounts a, f.accounts a)
            (both (ends_account a e) (account_lapsed a events) (is_allowed a s)),
      λ a b.
          rw (assets a b, f.assets a b)
            (both (ends_asset a b e) (asset_lapsed a b events) (is_allowed_for_asset a b s)),
    )
