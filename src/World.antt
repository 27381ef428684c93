-- ===== src/World.antt =====
-- The contracts that PrincipalManager and RecoveryEscrow call, by their addresses, and the calls.
use principal.Base.{arith, ℕ, Option, none, some, put}
use principal.Base.{refl, ◌≡◌, subst}
use principal.Host.{and_then_ok, ok-injective, Result, ok, err, and_then, M}
use principal.Host.Errors.{Panic}
use principal.Token.{Token}
use principal.Sy
use principal.Pt
use principal.Yt

-- The contract at an address; a call of an address that holds none aborts.
abbrev pub found : {A : Type 0} → Option A → Result A
found none = err Panic.no_contract
found (some s) = ok s

pub found_ok : {A : Type 0} (o : Option A) {s : A} → found o ≡ ok s → o ≡ some s
found_ok none h = cc
found_ok (some s) h = cc

module _ (token : Token) where
  open token use {Ledger}

  pub record World : Type 0 where
    pub sys : ℕ → Option Sy.State
    pub pts : ℕ → Option Pt.State
    pub yts : ℕ → Option Yt.State
    pub ledger : Ledger

  -- A call of the SYWrapper at an address; it may call the token in turn.
  abbrev pub call_sy : {A : Type 0} → ℕ → M (Sy.State × Ledger) A → M World A
  call_sy a f w = and_then (found (w.sys a)) (λ s.
      and_then (f (s, w.ledger))
        (λ r. ok (r.0, record w { sys = put w.sys a (r.1.0); ledger = r.1.1 })))

  -- A call of the PTToken at an address.
  abbrev pub call_pt : {A : Type 0} → ℕ → M Pt.State A → M World A
  call_pt a f w =
      and_then (found (w.pts a))
        (λ s. and_then (f s) (λ r. ok (r.0, record w { pts = put w.pts a (r.1) })))

  -- A call of the YTToken at an address.
  abbrev pub call_yt : {A : Type 0} → ℕ → M Yt.State A → M World A
  call_yt a f w =
      and_then (found (w.yts a))
        (λ s. and_then (f s) (λ r. ok (r.0, record w { yts = put w.yts a (r.1) })))

  -- A view of the contract at an address.
  abbrev pub ask_sy : {A : Type 0} → ℕ → (Sy.State → Result A) → World → Result A
  ask_sy a f w = and_then (found (w.sys a)) f

  abbrev pub ask_pt : {A : Type 0} → ℕ → (Pt.State → Result A) → World → Result A
  ask_pt a f w = and_then (found (w.pts a)) f

  abbrev pub ask_yt : {A : Type 0} → ℕ → (Yt.State → Result A) → World → Result A
  ask_yt a f w = and_then (found (w.yts a)) f

  -- What a call that succeeds has done.
  pub record CalledSy {A : Type 0} (a : ℕ) (f : M (Sy.State × Ledger) A) (w w' : World) (r : A)
      : Type 0 where
    pub before : Sy.State
    pub after : Sy.State
    pub at_address : w.sys a ≡ some before
    pub ran : f (before, w.ledger) ≡ ok (r, (after, w'.ledger))
    pub effects : w' ≡ record w { sys = put w.sys a after; ledger = w'.ledger }

  pub record CalledPt {A : Type 0} (a : ℕ) (f : M Pt.State A) (w w' : World) (r : A) : Type 0 where
    pub before : Pt.State
    pub after : Pt.State
    pub at_address : w.pts a ≡ some before
    pub ran : f before ≡ ok (r, after)
    pub effects : w' ≡ record w { pts = put w.pts a after }

  pub record CalledYt {A : Type 0} (a : ℕ) (f : M Yt.State A) (w w' : World) (r : A) : Type 0 where
    pub before : Yt.State
    pub after : Yt.State
    pub at_address : w.yts a ≡ some before
    pub ran : f before ≡ ok (r, after)
    pub effects : w' ≡ record w { yts = put w.yts a after }

  pub call_sy_ok :
      {A : Type 0} (a : ℕ) (f : M (Sy.State × Ledger) A) {w w' : World} {r : A}
      → call_sy a f w ≡ ok (r, w')
      → CalledSy a f w w' r
  call_sy_ok a f {w} h =
      let (s, e, h') = and_then_ok (found (w.sys a)) h in
      let ((x, (s', l)), g, k) = and_then_ok (f (s, w.ledger)) h' in
      subst (λ (p : _ × World). CalledSy a f w p.1 p.0) (ok-injective k)
        (record {
          before = s;
          after = s';
          at_address = found_ok (w.sys a) e;
          ran = g;
          effects = refl;
        })

  pub call_pt_ok :
      {A : Type 0} (a : ℕ) (f : M Pt.State A) {w w' : World} {r : A}
      → call_pt a f w ≡ ok (r, w')
      → CalledPt a f w w' r
  call_pt_ok a f {w} h =
      let (s, e, h') = and_then_ok (found (w.pts a)) h in
      let ((x, s'), g, k) = and_then_ok (f s) h' in
      subst (λ (p : _ × World). CalledPt a f w p.1 p.0) (ok-injective k)
        (record {
          before = s;
          after = s';
          at_address = found_ok (w.pts a) e;
          ran = g;
          effects = refl;
        })

  pub call_yt_ok :
      {A : Type 0} (a : ℕ) (f : M Yt.State A) {w w' : World} {r : A}
      → call_yt a f w ≡ ok (r, w')
      → CalledYt a f w w' r
  call_yt_ok a f {w} h =
      let (s, e, h') = and_then_ok (found (w.yts a)) h in
      let ((x, s'), g, k) = and_then_ok (f s) h' in
      subst (λ (p : _ × World). CalledYt a f w p.1 p.0) (ok-injective k)
        (record {
          before = s;
          after = s';
          at_address = found_ok (w.yts a) e;
          ran = g;
          effects = refl;
        })

  -- The next call of the same YTToken starts where the last one ended.
  pub yt_again :
      {A B : Type 0} (a : ℕ) (f : M Yt.State A) (g : M Yt.State B) {u v w : World} {r : A} {q : B}
      → (x : CalledYt a f u v r) → (y : CalledYt a g v w q) → y.before ≡ x.after
  yt_again a f g x y = grind (arith, x.effects, y.at_address)

-- What a view that reads storage and may panic answers.
abbrev pub answer : {S A : Type 0} → M S A → S → Result A
answer f s = and_then (f s) (λ r. ok (r.0))
