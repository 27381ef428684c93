-- ===== src/Escrow/Seizing.antt =====
-- What a successful seizure through RecoveryEscrow has checked and moved.
use principal.Base.{ap, ℕ, ◌≡◌, ◌∙◌, true, false, some, arith, unwrap_or, ◌==◌}
use principal.Base.Int.{ℤ, pos, ◌≤ℤ◌, ◌-ℤ◌, int_laws}
use principal.Base.Balances.{get-set_amount, move, Balances, get_amount, get-move, take_off}
use principal.Host.{Env, Views, ok, err, is_authorized, commit, called_by, and_then_ok}
use principal.Token.{Token}
use principal.World.{World, CalledSy, call_sy, call_sy_ok}
use principal.Sy
use principal.Sy.Effects.{seize_ok}
use principal.Sy.Soundness.{IsSound, moved-IsSound, withdraw-par}
use principal.Sy.Custody.{withdraw_ok}
use principal.Manager
use principal.Escrow.Store.{State}
use principal.Escrow.Entry.{Joint, seize_sy}

-- The issuer has signed, and the account is deauthorized on the asset.
pub record IsOrdered (views : Views) (env : Env) (caller account : ℕ) (s : State) : Type 0 where
  pub asset : ℕ
  pub has_asset : s.underlying ≡ some asset
  pub signed : is_authorized env caller ≡ true
  pub by_issuer : views.sac_admin asset ≡ ok caller
  pub deauthorized : views.sac_authorized asset account ≡ ok false

-- What moves in and is taken off again leaves the receiver as it was.
seized_and_taken :
    (b : Balances) (a e : ℕ) (x : ℤ)
    → (e == a) ≡ false
    → (get_amount (take_off (move b a e x) e x) a ≡ get_amount b a -ℤ x)
      × (get_amount (take_off (move b a e x) e x) e ≡ get_amount b e)
seized_and_taken b a e x ne = (
  grind (
    int_laws,
    get-set_amount (move b a e x) e a (get_amount (move b a e x) e -ℤ x),
    get-move b a e a x,
  ),
  grind (
    int_laws,
    get-set_amount (move b a e x) e e (get_amount (move b a e x) e -ℤ x),
    get-move b a e e x,
  ),
)

module _ (token : Token) where
  -- Two calls of the wrapper: the seizure to the escrow, and the withdrawal of what was seized.
  pub record SySeized (views : Views) (env : Env) (caller account : ℕ) (shares unwrapped : ℤ)
      (j j' : Joint token) : Type 0 where
    pub ordered : IsOrdered views env caller account (j.0)
    pub positive : pos 1 ≤ℤ shares
    pub sy : ℕ
    pub has_sy : (j.0).sy_wrapper ≡ some sy
    pub between : World token
    pub seized : ℤ
    pub first :
        CalledSy token sy
          (Manager.sy_only token (Sy.seize (called_by env sy) env.current account shares))
          ((j.1).1)
          between
          seized
    pub second :
        CalledSy token sy
          (Sy.withdraw token views (called_by env sy) env.current shares env.current)
          between
          ((j'.1).1)
          unwrapped

  pub seize_sy_ok :
      (views : Views) (env : Env) (caller account : ℕ) (shares unwrapped : ℤ) (j j' : Joint token)
      → seize_sy token views env caller account shares j ≡ ok (unwrapped, j')
      → SySeized views env caller account shares unwrapped j j'
  unfolding seize_sy
  seize_sy_ok views env caller account shares unwrapped j j' h =
      let sy = unwrap_or ((j.0).sy_wrapper) 0 in
      let run =
        call_sy token sy
          (Manager.sy_only token (Sy.seize (called_by env sy) env.current account shares))
          ((j.1).1) in
      record {
        ordered = record {
          asset = unwrap_or ((j.0).underlying) 0;
          has_asset = ground arith;
          signed = ground arith;
          by_issuer = ground arith;
          deauthorized = ground arith;
        };
        positive = ground arith;
        sy = sy;
        has_sy = ground arith;
        between = commit ((j.1).1) run;
        seized = elim run [ ok r ↦ r.0 | err _ ↦ pos 0 ];
        first = call_sy_ok token _ _ (ground arith);
        second = call_sy_ok token _ _ (ground arith);
      }

  -- The wrapper's seizure, out of the call that the escrow makes.
  seized_inside :
      (env : Env) (caller account : ℕ) (shares result : ℤ) (s s' : Sy.State) (l l' : token.Ledger)
      → Manager.sy_only token (Sy.seize env caller account shares) (s, l) ≡ ok (result, (s', l'))
      → Sy.seize env caller account shares s ≡ ok (result, s')
  seized_inside env caller account shares result s s' l l' h =
      let (r, e, g) = and_then_ok (Sy.seize env caller account shares s) h in e ∙ grind arith

  -- What is left of the account's shares once the escrow has recovered some.
  pub record Recovered (sy account escrow : ℕ) (shares : ℤ) (s : Sy.State) (w : World token)
      : Type 0 where
    pub after : Sy.State
    pub at_address : w.sys sy ≡ some after
    pub taken : get_amount after.balances account ≡ get_amount s.balances account -ℤ shares
    pub kept : get_amount after.balances escrow ≡ get_amount s.balances escrow

  -- A recovery of shares from an account other than the escrow itself that succeeds, at a
  -- wrapper whose books are sound, was signed by the issuer against an account that the asset
  -- has deauthorized. It takes exactly the shares from the account, leaves the escrow's own
  -- shares as they were, and unwraps one unit of the underlying for each share.
  pub seize_sy-recovers :
      (views : Views) (env : Env) (caller account sy : ℕ) (shares unwrapped : ℤ) (s : Sy.State)
      (j j' : Joint token)
      → (j.0).sy_wrapper ≡ some sy
      → ((j.1).1).sys sy ≡ some s
      → IsSound s
      → (env.current == account) ≡ false
      → seize_sy token views env caller account shares j ≡ ok (unwrapped, j')
      → IsOrdered views env caller account (j.0)
        × (unwrapped ≡ shares)
        × Recovered sy account env.current shares s ((j'.1).1)
  seize_sy-recovers views env caller account sy shares unwrapped s j j' hsy hs sound ne h =
      let r = seize_sy_ok views env caller account shares unwrapped j j' h in
      let same : r.sy ≡ sy = grind (arith, r.has_sy) in
      let inner =
        seized_inside (called_by env r.sy) env.current account shares r.seized r.first.before
          r.first.after _ _ r.first.ran in
      let (z, _) =
        seize_ok (called_by env r.sy) env.current account shares r.seized r.first.before
          r.first.after inner in
      let first : r.first.before ≡ s = grind (arith, r.first.at_address) in
      let again : r.second.before ≡ r.first.after =
        grind (arith, r.second.at_address, r.first.effects) in
      let w =
        (withdraw_ok token views (called_by env r.sy) env.current shares env.current unwrapped
          (r.second.before, r.between.ledger) _ r.second.ran).effects in
      let sound_between : IsSound r.second.before =
        rw again (
          moved-IsSound account env.current shares (rw first sound) z.positive z.covered z.moved) in
      let books = seized_and_taken s.balances account env.current shares ne in
      let balances : r.second.after.balances
          ≡ take_off (move s.balances account env.current shares) env.current shares =
        grind (arith, w.effects, again, z.moved, first) in
      (
        r.ordered,
        withdraw-par sound_between w,
        record {
          after = r.second.after;
          at_address = grind (arith, r.second.effects);
          taken = ap (λ b. get_amount b account) balances ∙ books.0;
          kept = ap (λ b. get_amount b env.current) balances ∙ books.1;
        },
      )
