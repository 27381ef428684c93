-- ===== src/Sy/Custody.antt =====
-- `deposit` and `withdraw` of SYWrapper with the calls of the token, and what the wrapper owns.
use principal.Base.Balances.{get_amount, move}
use principal.Base.{ℕ, ◌≡◌, ◌≢◌, none, some, Option, arith, subst}
use principal.Base.Int.{ℤ, pos, ◌≤ℤ◌, ◌+ℤ◌, int_laws}
use principal.Host.{Env, Views, ok, and_then_ok, ok-injective, called_by}
use principal.Token.{Token}
use principal.Sy.Store.{State, total_underlying, total_shares}
use principal.Sy.Entry
use principal.Sy.Entry.{Joint}
use principal.Sy.Effects.{Deposited, Withdrawn, deposit_effects_ok, withdraw_effects_ok}
use principal.Sy.Roles.{SameBooks}
use principal.Sy.Soundness.{IsSound, moved-IsSound, Deposited-IsSound, Withdrawn-IsSound}

add_nonneg : (b : ℤ) (n : ℕ) → pos 0 ≤ℤ b → pos 0 ≤ℤ b +ℤ pos n
add_nonneg b n h = grind int_laws

module _ (token : Token) where
  open token use {Ledger, balance}

  -- `deposit` is its effects followed by the transfer to the wrapper.
  pub record DepositRan (views : Views) (env : Env) (from : ℕ) (amount result : ℤ)
      (j j' : Joint token) : Type 0 where
    pub asset : ℕ
    pub effects : Deposited views env from amount j.0 j'.0 (asset, result)
    pub paid_in : token.transfer asset (called_by env asset) from env.current amount j.1 ≡ ok j'.1

  -- A deposit that succeeds was signed by the depositor of a wrapper that is not paused and has
  -- cleared it on both layers; the shares, at the rate before, are added to the depositor and to the
  -- total, the amount to the other total, and the token moves the amount in after that.
  pub deposit_ok :
      (views : Views) (env : Env) (from : ℕ) (amount result : ℤ) (j j' : Joint token)
      → Entry.deposit token views env from amount j ≡ ok (result, j')
      → DepositRan views env from amount result j j'
  unfolding Entry.deposit
  deposit_ok views env from amount result j j' h =
      let ((out, s'), e, g) = and_then_ok (Entry.deposit_effects views env from amount j.0) h in
      let (ledger, t, r) =
        and_then_ok (token.transfer out.0 (called_by env out.0) from env.current amount j.1) g in
      subst (λ (p : ℤ × Joint token). DepositRan views env from amount p.0 j p.1) (ok-injective r)
        (record {
          asset = out.0;
          effects = deposit_effects_ok views env from amount out j.0 s' e;
          paid_in = t;
        })

  -- `withdraw` is its effects followed by the transfer from the wrapper.
  pub record WithdrawRan (views : Views) (env : Env) (from to : ℕ) (shares result : ℤ)
      (j j' : Joint token) : Type 0 where
    pub asset : ℕ
    pub effects : Withdrawn views env from to shares j.0 j'.0 (asset, result)
    pub paid_out : token.transfer asset (called_by env asset) env.current to result j.1 ≡ ok j'.1

  -- A withdrawal that succeeds was signed by the holder of the shares, has cleared the holder and
  -- the receiver on both layers, takes the shares from the holder and from the total and the amount,
  -- at the rate before, from the other total; after that the token pays the amount out.
  pub withdraw_ok :
      (views : Views) (env : Env) (from : ℕ) (shares : ℤ) (to : ℕ) (result : ℤ) (j j' : Joint token)
      → Entry.withdraw token views env from shares to j ≡ ok (result, j')
      → WithdrawRan views env from to shares result j j'
  unfolding Entry.withdraw
  withdraw_ok views env from shares to result j j' h =
      let ((out, s'), e, g) = and_then_ok (Entry.withdraw_effects views env from shares to j.0) h in
      let (ledger, t, r) =
        and_then_ok (token.transfer out.0 (called_by env out.0) env.current to out.1 j.1) g in
      subst (λ (p : ℤ × Joint token). WithdrawRan views env from to shares p.0 j p.1)
        (ok-injective r)
        (record {
          asset = out.0;
          effects = withdraw_effects_ok views env from to shares out j.0 s' e;
          paid_out = t;
        })

  -- The wrapper of address `self` owns at least the underlying of its books, but for what it has
  -- lost of each asset; a wrapper without an asset promises nothing.
  abbrev pub Backed : Option ℕ → ℤ → ℕ → (ℕ → ℕ) → Ledger → Type 0
  Backed none promised self lost l = promised ≤ℤ pos 0
  Backed (some asset) promised self lost l = promised ≤ℤ balance asset l self +ℤ pos (lost asset)

  pub record IsSafe (self : ℕ) (lost : ℕ → ℕ) (j : Joint token) : Type 0 where
    pub sound : IsSound j.0
    pub backed : Backed j.0.underlying (total_underlying j.0) self lost j.1

  pub deposit-IsSafe :
      (self : ℕ) (views : Views) (env : Env) (from : ℕ) (amount result : ℤ) (lost : ℕ → ℕ)
      (j j' : Joint token)
      → env.current ≡ self
      → from ≢ self
      → DepositRan views env from amount result j j'
      → IsSafe self lost j
      → IsSafe self lost j'
  unfolding total_underlying
  deposit-IsSafe self views env from amount result lost j j' here ne d h = record {
    sound = Deposited-IsSound h.sound d.effects;
    backed = grind (
      int_laws,
      h.backed,
      d.effects.asset,
      d.effects.effects,
      token.transfer_moves d.asset (called_by env d.asset) from env.current amount j.1 j'.1
          d.paid_in self,
    );
  }

  pub withdraw-IsSafe :
      (self : ℕ) (views : Views) (env : Env) (from to : ℕ) (shares result : ℤ) (lost : ℕ → ℕ)
      (j j' : Joint token)
      → env.current ≡ self
      → WithdrawRan views env from to shares result j j'
      → IsSafe self lost j
      → IsSafe self lost j'
  unfolding total_underlying
  withdraw-IsSafe self views env from to shares result lost j j' here d h = record {
    sound = Withdrawn-IsSound h.sound d.effects;
    backed = grind (
      int_laws,
      h.backed,
      d.effects.asset,
      d.effects.effects,
      d.effects.paid,
      token.transfer_moves d.asset (called_by env d.asset) env.current to result j.1 j'.1 d.paid_out
          self,
    );
  }

  pub initialize-Backed :
      (self : ℕ) (views : Views) (env : Env) (admin underlying permissioning : ℕ) (s s' : State)
      (lost : ℕ → ℕ) (l : Ledger)
      → Entry.initialize views env admin underlying permissioning s ≡ ok (tt, s')
      → Backed s'.underlying (total_underlying s') self lost l
  unfolding Entry.initialize total_underlying
  initialize-Backed self views env admin underlying permissioning s s' lost l e = ground (
    arith,
    add_nonneg (balance underlying l self) (lost underlying)
        (token.balance_nonneg underlying l self),
  )

  -- What the wrapper has and what it has lost add up to no less than before.
  pub Backed-grows :
      (self : ℕ) (asset : Option ℕ) (promised : ℤ) (lost lost' : ℕ → ℕ) (l l' : Ledger)
      → ((a : ℕ) → balance a l self +ℤ pos (lost a) ≤ℤ balance a l' self +ℤ pos (lost' a))
      → Backed asset promised self lost l
      → Backed asset promised self lost' l'
  Backed-grows self none promised lost lost' l l' grows h = h
  Backed-grows self (some a) promised lost lost' l l' grows h = omega (arith, grows a)

  pub SameBooks-IsSafe :
      (self : ℕ) (lost : ℕ → ℕ) (s s' : State) (l : Ledger)
      → SameBooks s s'
      → IsSafe self lost (s, l)
      → IsSafe self lost (s', l)
  unfolding total_underlying total_shares
  SameBooks-IsSafe self lost s s' l b h = record {
    sound = record {
      equal = rw (b.same_total, b.same_shares) h.sound.equal;
      total_nonneg = rw b.same_shares h.sound.total_nonneg;
      summed = rw (b.same_balances, b.same_shares) h.sound.summed;
      nonneg = rw b.same_balances h.sound.nonneg;
      fresh = rw b.has_admin tt;
    };
    backed = rw (b.same_underlying, b.same_total) h.backed;
  }

  pub moved-IsSafe :
      (self from to : ℕ) (amount : ℤ) (lost : ℕ → ℕ) (s s' : State) (l : Ledger)
      → pos 1 ≤ℤ amount
      → amount ≤ℤ get_amount s.balances from
      → s' ≡ record s { balances = move s.balances from to amount }
      → IsSafe self lost (s, l)
      → IsSafe self lost (s', l)
  unfolding total_underlying
  moved-IsSafe self from to amount lost s s' l positive covered moved h = record {
    sound = moved-IsSound from to amount h.sound positive covered moved;
    backed = rw moved h.backed;
  }
