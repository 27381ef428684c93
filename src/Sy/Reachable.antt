-- ===== src/Sy/Reachable.antt =====
-- The wrappers that the steps of Sy/Steps reach.
use principal.Base.Balances.{sum}
use principal.Base.{
  Bool-cases, false, ==_iff, ◌*◌, ◌<◌, ◌^◌, ℕ, ◌≡◌, arith, ◌+◌, ◌==◌, ◌≢◌, sym, if◌then◌else◌, inl,
  inr,
}
use principal.Base.Int.{ℤ, pos, ◌≤ℤ◌, ◌+ℤ◌, int_laws}
use principal.Host.{Env, Views, ok}
use principal.Token.{Token}
use principal.Sy.Store.{rate_scale, exchange_rate, empty, total_underlying, total_shares}
use principal.Sy.Entry
use principal.Sy.Entry.{Joint}
use principal.Sy.Effects.{transfer_ok, seize_ok}
use principal.Sy.Soundness.{IsSound-IsPar, initialize-IsSound, deposit-par, withdraw-par}
use principal.Sy.Steps.{Step, Reach, taken, clawed_back}
use principal.Sy.Store.{exchange_rate, rate_scale}
use principal.Sy.Rate.{exchange_rate-fits}
use principal.Sy.Roles.{
  set_paused-SameBooks, transfer_admin-SameBooks, set_recovery_escrow-SameBooks,
}
use principal.Sy.Custody.{
  Backed-grows, IsSafe, SameBooks-IsSafe, moved-IsSafe, deposit-IsSafe, withdraw-IsSafe,
  initialize-Backed, Backed-grows, deposit_ok, withdraw_ok,
}

module _ (token : Token) where
  open token use {Ledger, balance}

  ==_differ : (a b : ℕ) → (a == b) ≡ false → a ≢ b
  ==_differ a b h = ground arith

  clawed :
      (self asset n : ℕ) (lost : ℕ → ℕ) (l l' : Ledger)
      → balance asset l self ≤ℤ balance asset l' self +ℤ pos n
      → ((other : ℕ) → other ≢ asset → balance other l self ≤ℤ balance other l' self)
      → (a : ℕ)
      → balance a l self +ℤ pos (lost a)
        ≤ℤ balance a l' self +ℤ pos ((if asset == a then n else 0) + lost a)
  clawed self asset n lost l l' left kept a = elim (Bool-cases (asset == a)) [
    | inl h ↦ let e = (==_iff asset a).0 h in rw h (let g = rw e at left in grind int_laws)
    | inr h ↦ let k = kept a (λ e. ==_differ asset a h (sym e)) in rw h (grind (int_laws, k))
  ]

  Step-IsSafe :
      (self : ℕ) (lost : ℕ → ℕ) (j j' : Joint token) (st : Step token self j j')
      → IsSafe token self lost j
      → IsSafe token self (taken token st lost) j'
  Step-IsSafe self lost j j' (Step.initialize views env admin underlying permissioning s' e eq) h =
      rw eq (record {
        sound = initialize-IsSound views env admin underlying permissioning j.0 s' h.sound e;
        backed =
            initialize-Backed token self views env admin underlying permissioning j.0 s' lost j.1 e;
      })
  Step-IsSafe self lost j j' (Step.transfer views env from to amount result s' e eq) h =
      let (t, _) = transfer_ok views env from to amount result j.0 s' e in
      rw eq (moved-IsSafe token self from to amount lost j.0 s' j.1 t.positive t.covered t.moved h)
  Step-IsSafe self lost j j' (Step.deposit views env from amount result here ne e) h =
      deposit-IsSafe token self views env from amount result lost j j' here ne
        (deposit_ok token views env from amount result j j' e) h
  Step-IsSafe self lost j j' (Step.withdraw views env from shares to result here e) h =
      withdraw-IsSafe token self views env from to shares result lost j j' here
        (withdraw_ok token views env from shares to result j j' e) h
  Step-IsSafe self lost j j' (Step.set_paused env caller paused s' e eq) h = rw eq (
      SameBooks-IsSafe token self lost j.0 s' j.1 (set_paused-SameBooks env caller paused j.0 s' e)
        h)
  Step-IsSafe self lost j j' (Step.transfer_admin env a b s' e eq) h =
      rw eq
        (SameBooks-IsSafe token self lost j.0 s' j.1 (transfer_admin-SameBooks env a b j.0 s' e) h)
  Step-IsSafe self lost j j' (Step.set_recovery_escrow env a b s' e eq) h = rw eq (
      SameBooks-IsSafe token self lost j.0 s' j.1 (set_recovery_escrow-SameBooks env a b j.0 s' e)
        h)
  Step-IsSafe self lost j j' (Step.seize env caller account shares result s' e eq) h =
      let (z, _) = seize_ok env caller account shares result j.0 s' e in
      rw eq (
        moved-IsSafe token self account caller shares lost j.0 s' j.1 z.positive z.covered z.moved
          h)
  Step-IsSafe self lost j j' (Step.token_only l' grows eq) h = rw eq (record {
    sound = h.sound;
    backed =
        Backed-grows token self j.0.underlying (total_underlying j.0) lost lost j.1 l'
          (λ a. let g = grows a in grind int_laws) h.backed;
  })
  Step-IsSafe self lost j j' (Step.clawback asset n l' left kept eq) h = rw eq (record {
    sound = h.sound;
    backed =
        Backed-grows token self j.0.underlying (total_underlying j.0) lost
          (λ a. (if asset == a then n else 0) + lost a) j.1 l'
          (clawed self asset n lost j.1 l' left kept) h.backed;
  })

  Reach-from-IsSafe :
      (self : ℕ) (j : Joint token) {k : Joint token}
      → IsSafe token self (λ a. 0) j
      → (r : Reach token self j k) → IsSafe token self (clawed_back token r) k
  Reach-from-IsSafe self j h Reach.here = h
  Reach-from-IsSafe self j h (Reach.next {k} {l} r st) =
      Step-IsSafe self (clawed_back token r) k l st (Reach-from-IsSafe self j h r)

  empty-IsSafe : (self : ℕ) (l : Ledger) → IsSafe token self (λ a. 0) (empty, l)
  unfolding total_underlying total_shares sum
  empty-IsSafe self l = ground arith

  -- Whatever a new wrapper and the token contracts have gone through by the steps of Sy/Steps, which
  -- are the calls of the wrapper, tokens that others move and clawbacks by an issuer: the accounts'
  -- shares add up to the total, no account is in debt, the two totals are equal, and the wrapper owns
  -- at least the underlying of its books less what has been clawed back from it.
  pub Reach-IsSafe :
      (self : ℕ) (l : Ledger) (j : Joint token) (r : Reach token self (empty, l) j)
      → IsSafe token self (clawed_back token r) j
  Reach-IsSafe self l j r = Reach-from-IsSafe self (empty, l) (empty-IsSafe self l) r

  -- In every reachable wrapper of n shares whose scaled total fits an `i128`, the exchange rate is
  -- one.
  pub Reach-exchange_rate :
      (self : ℕ) (l : Ledger) (j : Joint token) (n : ℕ)
      → Reach token self (empty, l) j
      → total_shares j.0 ≡ pos n
      → n * 10000000 < 2 ^ 127
      → exchange_rate j.0 ≡ ok rate_scale
  Reach-exchange_rate self l j n r hn fits =
      exchange_rate-fits n j.0 (IsSound-IsPar (Reach-IsSafe self l j r).sound) hn fits

  -- In every reachable wrapper a deposit that succeeds mints as many shares as it takes units.
  pub Reach-deposit :
      (self : ℕ) (l : Ledger) (j : Joint token)
      → Reach token self (empty, l) j
      → (views : Views) (env : Env) (from : ℕ) (amount shares : ℤ) (j' : Joint token)
      → Entry.deposit token views env from amount j ≡ ok (shares, j')
      → shares ≡ amount
  Reach-deposit self l j r views env from amount shares j' e =
      deposit-par (Reach-IsSafe self l j r).sound
        (deposit_ok token views env from amount shares j j' e).effects

  -- In every reachable wrapper a withdrawal that succeeds pays one unit for each share.
  pub Reach-withdraw :
      (self : ℕ) (l : Ledger) (j : Joint token)
      → Reach token self (empty, l) j
      → (views : Views) (env : Env) (from : ℕ) (shares : ℤ) (to : ℕ) (amount : ℤ) (j' : Joint token)
      → Entry.withdraw token views env from shares to j ≡ ok (amount, j')
      → amount ≡ shares
  Reach-withdraw self l j r views env from shares to amount j' e =
      withdraw-par (Reach-IsSafe self l j r).sound
        (withdraw_ok token views env from shares to amount j j' e).effects
