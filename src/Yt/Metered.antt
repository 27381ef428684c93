-- ===== src/Yt/Metered.antt =====
-- The yield index, the oracle's rate and the snapshots of YTToken over histories of calls.
use principal.Base.{ℕ, suc, ◌-◌, ◌≡◌, none, some, ap, ◌∙◌, refl, arith, is_some, true}
use principal.Base.Int.{pos_part, ℤ, pos, ◌≤ℤ◌}
use principal.Host.{value_or, Env, Views, Result, ok, err, commit_induction}
use principal.Yt.Store.{State, empty, accrued_yield_index, last_claimed_index}
use principal.Yt.Accrual.{settle, update_yield_index, claim_yield}
use principal.Yt.Entry.{initialize, set_minter, set_recovery_escrow, approve}
use principal.Yt.Settle.{settled, settle-Settled}
use Prim.Native.String.{String}
use principal.Yt.Effects.{Moved, transfer_ok, transfer_from_ok}
use principal.Yt.Issue.{Minted, Burned, mint_ok, burn_ok, seize_ok}
use principal.Yt.Index.{Updated, update_yield_index_ok}
use principal.Yt.Requests.{Call}
use principal.Yt.Calls.{apply_call}

-- Before `initialize` there is no oracle and no index; from then on both are set, and the rate that
-- the index was taken at is positive.
pub data Meter (s : State) : Type 0 where
  off : s.admin ≡ none → s.oracle ≡ none → s.yield_index ≡ none → Meter s
  on :
      (f r : ℕ)
      → is_some s.admin ≡ true
      → s.yield_index ≡ some (pos f)
      → s.last_oracle_rate ≡ some (pos (suc r))
      → Meter s

pub record IsMetered (s : State) : Type 0 where
  pub meter : Meter s
  pub snapshots : (a : ℕ) → pos 0 ≤ℤ last_claimed_index a s

-- What the oracle answers, if it answers, is positive.
abbrev pub Positive : Result ℤ → Type 0
Positive (ok v) = pos 1 ≤ℤ v
Positive (err p) = Unit

abbrev pub IsPriced : Views → Type 0
IsPriced views = (oracle : ℕ) → Positive (views.get_reference_value oracle)

Meter-index : (s : State) → Meter s → pos 0 ≤ℤ accrued_yield_index s
unfolding accrued_yield_index
Meter-index s (Meter.off a o y) = ground arith
Meter-index s (Meter.on f r a y l) = ground arith

-- States that agree in what the meter reads.
record Level (s t : State) : Type 0 where
  admin : t.admin ≡ s.admin
  oracle : t.oracle ≡ s.oracle
  index : t.yield_index ≡ s.yield_index
  rate : t.last_oracle_rate ≡ s.last_oracle_rate

Level-Meter : (s t : State) → Level s t → Meter s → Meter t
Level-Meter s t e (Meter.off a o y) = Meter.off (rw e.admin a) (rw e.oracle o) (rw e.index y)
Level-Meter s t e (Meter.on f r a y l) = Meter.on f r (rw e.admin a) (rw e.index y) (rw e.rate l)

settle-IsMetered :
    (account : ℕ) (s s' : State) → settle account s ≡ ok (tt, s') → IsMetered s → IsMetered s'
unfolding last_claimed_index accrued_yield_index
settle-IsMetered account s s' e h =
    let k = settle-Settled account s s' e in
    let low = Meter-index s h.meter in
    rw k.frame (record {
      meter =
          Level-Meter s _ (record { admin = refl; oracle = refl; index = refl; rate = refl })
            h.meter;
      snapshots = λ a. rw k.snapshot (ground (arith, h.snapshots a));
    })

-- A settlement writes the present index to a snapshot.
settled-IsMetered : (account : ℕ) (s : State) → IsMetered s → IsMetered (settled account s)
settled-IsMetered account s h =
    commit_induction IsMetered s (settle account s) h λ _ s' e. settle-IsMetered account s s' e h

Level-IsMetered :
    (s t : State)
    → Level s t
    → t.last_claimed_index ≡ s.last_claimed_index
    → IsMetered s
    → IsMetered t
unfolding last_claimed_index
Level-IsMetered s t e l h = record {
  meter = Level-Meter s t e h.meter;
  snapshots = λ a. rw l (h.snapshots a);
}

module _ (s s' : State) (h : IsMetered s) where
  Moved-IsMetered : (from to : ℕ) (amount : ℤ) → Moved from to amount s s' → IsMetered s'
  Moved-IsMetered from to amount m =
      Level-IsMetered (settled to (settled from s)) s'
        (rw m.moved (record { admin = refl; oracle = refl; index = refl; rate = refl }))
        (rw m.moved) (settled-IsMetered to (settled from s) (settled-IsMetered from s h))

  Minted-IsMetered :
      (views : Views) (env : Env) (to : ℕ) (amount : ℤ)
      → Minted views env to amount s s'
      → IsMetered s'
  Minted-IsMetered views env to amount m =
      Level-IsMetered (settled to s) s'
        (rw m.effects (record { admin = refl; oracle = refl; index = refl; rate = refl }))
        (rw m.effects) (settled-IsMetered to s h)

  Burned-IsMetered :
      (env : Env) (from : ℕ) (amount : ℤ) → Burned env from amount s s' → IsMetered s'
  Burned-IsMetered env from amount m =
      Level-IsMetered (settled from s) s'
        (rw m.effects (record { admin = refl; oracle = refl; index = refl; rate = refl }))
        (rw m.effects) (settled-IsMetered from s h)

  collected-IsMetered :
      (env : Env) (caller account : ℕ) (amount : ℤ)
      → claim_yield env caller account s ≡ ok (amount, s')
      → IsMetered s'
  unfolding claim_yield
  collected-IsMetered env caller account amount e =
      let g : s' ≡ record (settled account s) { pending_claim = s'.pending_claim } = ground arith in
      Level-IsMetered (settled account s) s'
        (rw g (record { admin = refl; oracle = refl; index = refl; rate = refl })) (rw g)
        (settled-IsMetered account s h)

  on-Updated : (f r : ℕ) (u : Updated f r s s') → is_some s.admin ≡ true → IsMetered s'
  unfolding last_claimed_index
  on-Updated f r u a = record {
    meter =
        Meter.on u.index_after u.rate_after (ap (λ t. is_some t.admin) u.frame ∙ a) u.index u.rate;
    snapshots = λ b.
        let l : s'.last_claimed_index ≡ s.last_claimed_index =
          ap (λ t. t.last_claimed_index) u.frame in
        rw l (h.snapshots b);
  }

updated-IsMetered :
    (views : Views) (s s' : State)
    → update_yield_index views s ≡ ok (tt, s')
    → Meter s
    → IsMetered s
    → IsMetered s'
unfolding update_yield_index
updated-IsMetered views s s' e (Meter.off a o y) h = absurd (ground arith)
updated-IsMetered views s s' e (Meter.on f r a y l) h =
    on-Updated s s' h f r (update_yield_index_ok views f r s s' y l e) a

initialized-IsMetered :
    (views : Views) (env : Env) (a p u o m : ℕ) (n y : String) (d : ℕ) (s s' : State)
    → IsPriced views
    → initialize views env a p u o m n y d s ≡ ok (tt, s')
    → IsMetered s
    → IsMetered s'
unfolding initialize last_claimed_index
initialized-IsMetered views env a p u o m n y d s s' q e h = record {
  meter =
      Meter.on 10000000 (pos_part (value_or (views.get_reference_value o) (pos 0)) - 1)
        (ground arith) (ground arith) (ground (arith, q o));
  snapshots =
      let l : s'.last_claimed_index ≡ s.last_claimed_index = ground arith in
      λ b. rw l (h.snapshots b);
}

pub apply_call-IsMetered :
    (views : Views) (env : Env) (call : Call) (s : State)
    → IsPriced views
    → IsMetered s
    → IsMetered (apply_call views env call s)
unfolding apply_call set_minter set_recovery_escrow approve last_claimed_index
apply_call-IsMetered views env (Call.initialize a p u o m n y d) s q h =
    commit_induction IsMetered s _ h
      λ _ s' e. initialized-IsMetered views env a p u o m n y d s s' q e h
apply_call-IsMetered views env (Call.set_minter a m) s q h =
    Level-IsMetered s _
      (record {
        admin = ground arith;
        oracle = ground arith;
        index = ground arith;
        rate = ground arith;
      })
      (ground arith) h
apply_call-IsMetered views env (Call.set_recovery_escrow a e) s q h =
    Level-IsMetered s _
      (record {
        admin = ground arith;
        oracle = ground arith;
        index = ground arith;
        rate = ground arith;
      })
      (ground arith) h
apply_call-IsMetered views env (Call.approve from p x e) s q h =
    Level-IsMetered s _
      (record {
        admin = ground arith;
        oracle = ground arith;
        index = ground arith;
        rate = ground arith;
      })
      (ground arith) h
apply_call-IsMetered views env (Call.transfer from to x) s q h =
    commit_induction IsMetered s _ h
      λ _ s' e. Moved-IsMetered s s' h from to x (transfer_ok views env from to x s s' e).1.move
apply_call-IsMetered views env (Call.transfer_from p from to x) s q h =
    commit_induction IsMetered s _ h λ _ s' e.
      Moved-IsMetered s s' h from to x (transfer_from_ok views env p from to x s s' e).1.move
apply_call-IsMetered views env (Call.mint to x) s q h =
    commit_induction IsMetered s _ h
      λ _ s' e. Minted-IsMetered s s' h views env to x (mint_ok env s s' views to x e)
apply_call-IsMetered views env (Call.burn from x) s q h =
    commit_induction IsMetered s _ h
      λ _ s' e. Burned-IsMetered s s' h env from x (burn_ok env s s' from x e)
apply_call-IsMetered views env (Call.seize c a x) s q h =
    commit_induction IsMetered s _ h
      λ r s' e. Moved-IsMetered s s' h a c x (seize_ok env s s' c a x r e).2
apply_call-IsMetered views env Call.update_yield_index s q h =
    commit_induction IsMetered s _ h λ _ s' e. updated-IsMetered views s s' e h.meter h
apply_call-IsMetered views env (Call.claim_yield c from) s q h =
    commit_induction IsMetered s _ h λ x s' e. collected-IsMetered s s' h env c from x e

pub empty-IsMetered : IsMetered empty
unfolding last_claimed_index
empty-IsMetered = record { meter = Meter.off refl refl refl; snapshots = λ a. omega arith }
