-- ===== src/Sy/Roundtrip.antt =====
-- `deposit` of SYWrapper followed by `withdraw` of the same shares.
use principal.Base.{ℕ, suc, ◌+◌, ◌*◌, ◌^◌, ◌<◌, ◌≡◌, ◌∙◌, refl, arith, some, Option, unwrap_or}
use principal.Base.Int.{ℤ, pos, ◌+ℤ◌, ◌-ℤ◌, int_laws, pos_of_nonneg}
use principal.Base.Balances.{
  Balances, get_amount, get-set_amount, get_amount-nonneg, put_on, take_off,
}
use principal.Host.{Env, Views, ok, called_by}
use principal.Token.{Token}
use principal.Ledger.Steps.{Same}
use principal.Sy.Store.{State, total_underlying, total_shares}
use principal.Sy.Entry
use principal.Sy.Entry.{Joint}
use principal.Sy.Effects.{Deposited, IsCleared}
use principal.Sy.Soundness.{IsSound, deposit-par, Deposited-IsSound}
use principal.Sy.Redemption.{CanWithdraw, withdrawn, withdraw_runs}
use principal.Sy.Totality.{pos-add}
use principal.Sy.Custody.{deposit_ok}

-- The books read as they did.
pub record Restored (s s' : State) : Type 0 where
  pub total_underlying : total_underlying s' ≡ total_underlying s
  pub total_shares : total_shares s' ≡ total_shares s
  pub balances : Same (get_amount s'.balances) (get_amount s.balances)
  pub frame : s' ≡ record s {
    total_underlying = s'.total_underlying;
    total_shares = s'.total_shares;
    balances = s'.balances;
  }

held_after :
    (balances : Balances) (from b x : ℕ)
    → get_amount balances from ≡ pos b
    → get_amount (put_on balances from (pos x)) from ≡ pos (b + x)
held_after balances from b x e =
    let g : get_amount (put_on balances from (pos x)) from ≡ get_amount balances from +ℤ pos x =
      grind (arith, get-set_amount) in
    g ∙ rw e (pos-add b x)

module _ (views : Views) (env : Env) (from m n : ℕ) (s s' : State) where
  -- A depositor may take out at once what a deposit has put in.
  deposited-CanWithdraw :
      (b : ℕ) (out : ℕ × ℤ)
      → IsSound s
      → total_shares s ≡ pos n
      → (n + suc m) * 10000000 < 2 ^ 127
      → get_amount s.balances from ≡ pos b
      → Deposited views env from (pos (suc m)) s s' out
      → CanWithdraw views env from from m (n + suc m) (b + suc m) s'
  unfolding total_shares
  deposited-CanWithdraw b out h e fits held d =
      let par : out.1 ≡ pos (suc m) = deposit-par h d in
      let cleared : IsCleared views s' from = rw d.effects (record {
        asset = d.from_cleared.asset;
        registry = d.from_cleared.registry;
        underlying = d.from_cleared.underlying;
        permissioning = d.from_cleared.permissioning;
        on_sac = d.from_cleared.on_sac;
        permitted = d.from_cleared.permitted;
      }) in
      record {
        sound = Deposited-IsSound h d;
        signed = d.signed;
        running = rw d.effects d.running;
        from_cleared = cleared;
        to_cleared = cleared;
        total = rw (d.effects, e, par) (pos-add n (suc m));
        fits = fits;
        held = rw (d.effects, par) (held_after s.balances from b (suc m) held);
        enough = omega arith;
      }

put_on-take_off :
    (b : Balances) (from : ℕ) (x : ℤ)
    → Same (get_amount (take_off (put_on b from x) from x)) (get_amount b)
put_on-take_off b from x a = grind (int_laws, get-set_amount)

add_sub : (a x : ℤ) → (a +ℤ x) -ℤ x ≡ a
add_sub a x = omega int_laws

withdrawn-Restored :
    (views : Views) (env : Env) (from m : ℕ) (s s' : State) (out : ℕ × ℤ)
    → IsSound s
    → Deposited views env from (pos (suc m)) s s' out
    → Restored s (withdrawn from m s')
unfolding total_underlying total_shares
withdrawn-Restored views env from m s s' out h d =
    let par : out.1 ≡ pos (suc m) = deposit-par h d in
    rw (d.effects, par)
      (record {
        total_underlying = add_sub (total_underlying s) (pos (suc m));
        total_shares = add_sub (total_shares s) (pos (suc m));
        balances = put_on-take_off s.balances from (pos (suc m));
        frame = refl;
      })

one_value : {o : Option ℕ} {a b : ℕ} → o ≡ some a → o ≡ some b → a ≡ b
one_value g h = cc

module _ (token : Token) where
  open token use {Ledger, balance}

  -- Coming back, a transfer restores every balance of the asset.
  there_and_back :
      (asset : ℕ) (env : Env) (a b : ℕ) (x : ℤ) (l l' l'' : Ledger)
      → token.transfer asset env a b x l ≡ ok l'
      → token.transfer asset env b a x l' ≡ ok l''
      → Same (balance asset l'') (balance asset l)
  there_and_back asset env a b x l l' l'' there back c =
      let p = token.transfer_moves asset env a b x l l' there c in
      let q = token.transfer_moves asset env b a x l' l'' back c in q ∙ rw p (grind int_laws)

  -- Into a wrapper with sound books and room for the total, a deposit that succeeds can be taken
  -- out again at once by the same account, if the token pays it out: withdrawing the shares that the
  -- deposit returned succeeds and returns the amount that was deposited, and then the totals, every
  -- account's shares, the rest of the wrapper and every balance of the asset are as they were before.
  pub deposit-withdraw :
      (views : Views) (env : Env) (from m n : ℕ) (result : ℤ) (s s' : State) (l l' l'' : Ledger)
      → IsSound s
      → total_shares s ≡ pos n
      → (n + suc m) * 10000000 < 2 ^ 127
      → (h : Entry.deposit token views env from (pos (suc m)) (s, l) ≡ ok (result, (s', l')))
      → token.transfer
          (unwrap_or s.underlying 0)
          (called_by env (unwrap_or s.underlying 0))
          env.current
          from
          (pos (suc m))
          l'
        ≡ ok l''
      → (Entry.withdraw token views env from result from (s', l')
          ≡ ok (pos (suc m), (withdrawn from m s', l'')))
        × Restored s (withdrawn from m s')
        × Same (balance (unwrap_or s.underlying 0) l'') (balance (unwrap_or s.underlying 0) l)
  deposit-withdraw views env from m n result s s' l l' l'' h e fits ran paid =
      let d = deposit_ok token views env from (pos (suc m)) result (s, l) (s', l') ran in
      let par : result ≡ pos (suc m) = deposit-par h d.effects in
      let (b, held) =
        pos_of_nonneg (get_amount s.balances from) (get_amount-nonneg s.balances from h.nonneg) in
      let can =
        deposited-CanWithdraw views env from m n s s' b (d.asset, result) h e fits held d.effects in
      let same : unwrap_or s.underlying 0 ≡ d.asset = rw d.effects.asset refl in
      let back = rw same at paid in
      let kept : s'.underlying ≡ some d.asset = rw d.effects.effects d.effects.asset in
      let asset = one_value can.from_cleared.underlying kept in
      (
        rw par (
            withdraw_runs token views env from from m (n + suc m) (b + suc m) s' l' l'' can
              (rw asset back)),
        withdrawn-Restored views env from m s s' (d.asset, result) h d.effects,
        rw same (
            there_and_back d.asset (called_by env d.asset) from env.current (pos (suc m)) l l' l''
              d.paid_in back),
      )
