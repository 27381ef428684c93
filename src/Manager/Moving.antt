-- ===== src/Manager/Moving.antt =====
-- Where the units of the underlying go that PrincipalManager pays out (`SYWrapper.withdraw` in
-- contracts/principal_manager/src/lib.rs): from the wrapper to the account.
use principal.Base.{ℕ, zero, suc, ◌≡◌, some, arith, ◌==◌, Bool, true, false, if◌then◌else◌}
use principal.Base.Int.{ℤ, pos, negsuc, ltb_ℤ, ◌+ℤ◌, ◌-ℤ◌, int_laws}
use principal.Host.{Env, Views, ok, pure, called_by}
use principal.Token.{Token}
use principal.Sy
use principal.Sy.Custody.{withdraw_ok}
use principal.Manager.Entry.{Joint, pay_out}
use principal.Manager.Redeeming.{Paid, pay_out_ok}

module _ (token : Token) where
  open token use {Ledger, balance}

  -- Of an asset, an amount has gone from one account to another, and nothing else has moved.
  abbrev pub Moves : ℕ → ℕ → ℕ → ℤ → Ledger → Ledger → Type 0
  Moves asset from to amount l l' =
      (a : ℕ)
      → balance asset l' a
        ≡ (balance asset l a -ℤ (if from == a then amount else pos 0))
          +ℤ (if to == a then amount else pos 0)

  no_move :
      (b : ℤ) (c d : Bool) → b ≡ (b -ℤ (if c then pos 0 else pos 0)) +ℤ (if d then pos 0 else pos 0)
  no_move b true true = grind int_laws
  no_move b true false = grind int_laws
  no_move b false true = grind int_laws
  no_move b false false = grind int_laws

  two_moves :
      (b b' b'' x y : ℤ) (c d : Bool)
      → b' ≡ (b -ℤ (if c then x else pos 0)) +ℤ (if d then x else pos 0)
      → b'' ≡ (b' -ℤ (if c then y else pos 0)) +ℤ (if d then y else pos 0)
      → b'' ≡ (b -ℤ (if c then x +ℤ y else pos 0)) +ℤ (if d then x +ℤ y else pos 0)
  two_moves b b' b'' x y true true h k = grind int_laws
  two_moves b b' b'' x y true false h k = grind int_laws
  two_moves b b' b'' x y false true h k = grind int_laws
  two_moves b b' b'' x y false false h k = grind int_laws

  pub none-Moves : (asset from to : ℕ) (l : Ledger) → Moves asset from to (pos 0) l l
  none-Moves asset from to l a = no_move (balance asset l a) (from == a) (to == a)

  pub Moves-trans :
      (asset from to : ℕ) (x y : ℤ) (l l' l'' : Ledger)
      → Moves asset from to x l l'
      → Moves asset from to y l' l''
      → Moves asset from to (x +ℤ y) l l''
  Moves-trans asset from to x y l l' l'' h k a =
      two_moves (balance asset l a) (balance asset l' a) (balance asset l'' a) x y (from == a)
        (to == a) (h a) (k a)

  -- A payment moves what it reports from the wrapper to the account.
  pub Paid-Moves :
      (views : Views) (env : Env) (sy from asset : ℕ) (desired paid : ℤ) (s : Sy.State)
      (j j' : Joint token)
      → (j.1).sys sy ≡ some s
      → s.underlying ≡ some asset
      → Paid token views env sy from desired paid j j'
      → Moves asset sy from paid (j.1).ledger (j'.1).ledger
  Paid-Moves views env sy from asset desired paid s j j' hs hu p =
      let before : p.withdrawn.before ≡ s = grind (arith, p.withdrawn.at_address) in
      let w =
        withdraw_ok token views (called_by env sy) env.current p.shares from paid (s, (j.1).ledger)
          _ (rw before at p.withdrawn.ran) in
      let same : w.asset ≡ asset = grind (arith, w.effects.asset) in
      token.transfer_moves asset _ sy from paid (j.1).ledger (j'.1).ledger (rw same at w.paid_out)

  -- The same for an amount that is paid out if there is any.
  pub pay_any-Moves :
      (views : Views) (env : Env) (sy from asset : ℕ) (claimed paid : ℤ) (s : Sy.State)
      (j j' : Joint token)
      → (j.1).sys sy ≡ some s
      → s.underlying ≡ some asset
      → (if ltb_ℤ (pos 0) claimed then pay_out token views env sy from claimed else pure (pos 0)) j
        ≡ ok (paid, j')
      → Moves asset sy from paid (j.1).ledger (j'.1).ledger
  pay_any-Moves views env sy from asset (pos zero) paid s j j' hs hu h =
      let p : paid ≡ pos 0 = ground arith in
      let e : j' ≡ j = ground arith in rw (p, e) (none-Moves asset sy from (j.1).ledger)
  pay_any-Moves views env sy from asset (negsuc n) paid s j j' hs hu h =
      let p : paid ≡ pos 0 = ground arith in
      let e : j' ≡ j = ground arith in rw (p, e) (none-Moves asset sy from (j.1).ledger)
  pay_any-Moves views env sy from asset (pos (suc n)) paid s j j' hs hu h =
      Paid-Moves views env sy from asset (pos (suc n)) paid s j j' hs hu
        (pay_out_ok token views env sy from (pos (suc n)) paid j j' (ground arith))
