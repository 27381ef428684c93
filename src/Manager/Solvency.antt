-- ===== src/Manager/Solvency.antt =====
-- What the shares of one mint have to pay for in the end: PT and YT of the same notional.
use native.Mathlib.Nat.{
  suc-add, div-mul-le_self, le-div_iff_mul-le, le_trans, mul-le-mul_left, mul-add, add-mul,
}
use principal.Base.{
  ap, sym, ◌∙◌, ℕ, zero, suc, ◌+◌, ◌*◌, ◌/◌, ◌-◌, ◌≡◌, ◌≤◌, ◌<◌, some, arith, unwrap_or,
}
use principal.Base.Int.{ℤ, pos, ◌+ℤ◌, ◌-ℤ◌, ◌*ℤ◌, quot_ℤ, ◌≤ℤ◌, int_laws}
use principal.Base.Balances.{get_amount, get-set_amount}
use principal.Host.{Env, Views, ok, and_then_ok, mul_div_ok, called_by}
use principal.Token.{Token}
use principal.Sy
use principal.Sy.Soundness.{IsSound, moved-IsSound}
use principal.Sy.Effects.{transfer_ok}
use principal.Yt.{scale, State, last_claimed_index, accrued_yield_index, update_yield_index}
use principal.Yt.Claimable.{claimable, unsettled, exact_yield, settle_adds}
use principal.Yt.Settle.{owed, settled, settled-frame, settle-Settled}
use principal.Yt.Issue.{Minted, mint_ok as issue_ok}
use principal.Yt.Index.{update_yield_index_ok, update_cases}
use principal.Yt.Rounding.{rise_step}
use principal.Manager.Store.{MintResult, RedeemResult}
use principal.Manager.Entry.{Joint, sy_only, mint, redeem}
use principal.Manager.Minting.{mint_ok}
use principal.Manager.Maturity.{redeem-pt_floor}
use principal.Manager.Legs.{redeem-yt_collects}

-- The yield of 2 n tokens over a fall of the index to a half is at least n.
owed_half : (n f g : ℕ) → g * 40000000 ≤ suc f * 20000000 → n ≤ owed (n + n) (suc f) g
owed_half n f g h =
    let d = suc f - g in
    let twice : suc f ≤ d + d = omega (arith, h) in
    (le-div_iff_mul-le {k = suc f} {x = n} {y = (n + n) * d} (omega arith)).1
      (le_trans (mul-le-mul_left n twice) (omega (arith, mul-add n d d, add-mul n n d)))

exact_yield-owed :
    (b f g : ℕ)
    → g < suc f
    → 0 < b
    → 0 < owed b (suc f) g
    → exact_yield (pos b) (pos (suc f)) (pos g) ≡ pos (owed b (suc f) g)
unfolding exact_yield ◌-ℤ◌ ◌*ℤ◌ quot_ℤ
exact_yield-owed b f g lt pb po = ground arith

-- A YT contract at the rate 2.0 with the index `f + 1`, where the account holds `b` tokens that were
-- settled at that index and has no claim.
record IsPosition (account b f : ℕ) (s : State) : Type 0 where
  at_two : s.last_oracle_rate ≡ some (pos 20000000)
  index : s.yield_index ≡ some (pos (suc f))
  held : get_amount s.balances account ≡ pos b
  snapshot : last_claimed_index account s ≡ pos (suc f)
  unclaimed : get_amount s.pending_claim account ≡ pos 0

-- If the rate doubles, such a position of 2 n tokens can collect at least n units.
position_collects :
    (account n f : ℕ) (views : Views) (s t : State)
    → IsPosition account (suc n + suc n) f s
    → views.get_reference_value (unwrap_or s.oracle 0) ≡ ok (pos 40000000)
    → update_yield_index views s ≡ ok (tt, t)
    → pos (suc n) ≤ℤ claimable account t
unfolding claimable unsettled last_claimed_index accrued_yield_index
position_collects account n f views s t p hv up =
    let (idx, _, _) =
      rise_step views (suc f) 19999999 39999999 s t p.index p.at_two hv (omega arith) up in
    let frame = (update_yield_index_ok views (suc f) 19999999 s t p.index p.at_two up).frame in
    let b = suc n + suc n in
    let bal : get_amount t.balances account ≡ pos b =
      ap (λ u. get_amount (State.balances u) account) frame ∙ p.held in
    let last : last_claimed_index account t ≡ pos (suc f) =
      ap (λ u. last_claimed_index account u) frame ∙ p.snapshot in
    let claim : get_amount t.pending_claim account ≡ pos 0 =
      ap (λ u. get_amount (State.pending_claim u) account) frame ∙ p.unclaimed in
    let g = suc f * 20000000 / 40000000 in
    let low = div-mul-le_self (suc f * 20000000) 40000000 in
    let enough = owed_half (suc n) f g low in
    let now : accrued_yield_index t ≡ pos g = ap (λ i. unwrap_or i scale) idx in
    let y = exact_yield-owed b f g (omega (arith, low)) (omega arith) (omega (arith, enough)) in
    rw (claim, bal, last, now, y) (grind (int_laws, enough))

-- An update at the stored rate changes nothing.
update_idle :
    (views : Views) (r : ℕ) (s t : State)
    → s.last_oracle_rate ≡ some (pos (suc r))
    → views.get_reference_value (unwrap_or s.oracle 0) ≡ ok (pos (suc r))
    → update_yield_index views s ≡ ok (tt, t)
    → t ≡ s
update_idle views r s t hr hv up = let step = update_cases views r s t hr up in ground (arith, step)

-- A YT contract at the rate 2.0 with the index `f + 1`, where the account has no tokens and no claim.
pub record IsNewcomer (account f : ℕ) (s : State) : Type 0 where
  pub at_two : s.last_oracle_rate ≡ some (pos 20000000)
  pub index : s.yield_index ≡ some (pos (suc f))
  pub held : get_amount s.balances account ≡ pos 0
  pub unclaimed : get_amount s.pending_claim account ≡ pos 0

-- An account without tokens and claims has, after an issue of `b` tokens, a position of them.
issued-IsPosition :
    (views : Views) (env : Env) (to b f : ℕ) (s s' : State)
    → IsNewcomer to f s
    → Minted views env to (pos b) s s'
    → IsPosition to b f s'
unfolding claimable unsettled exact_yield last_claimed_index accrued_yield_index
issued-IsPosition views env to b f s s' p m =
    let k = settle-Settled to s (settled to s) m.to_settles in
    let claim = settle_adds to s (settled to s) m.to_settles in
    let own = get-set_amount s.balances to to (get_amount s.balances to +ℤ pos b) in
    record {
      at_two = rw m.effects (ap (λ t. State.last_oracle_rate t) k.frame ∙ p.at_two);
      index = rw m.effects (ap (λ t. State.yield_index t) k.frame ∙ p.index);
      held = rw m.effects (grind (int_laws, own, p.held));
      snapshot = rw m.effects (grind (arith, k.snapshot, p.index));
      unclaimed = rw m.effects (grind (int_laws, claim, p.unclaimed, p.held));
    }

module _ (token : Token) where
  -- The wrapper's transfer, out of the call that the manager makes.
  moved_inside :
      (views : Views) (env : Env) (from to : ℕ) (amount result : ℤ) (s s' : Sy.State)
      (l l' : token.Ledger)
      → sy_only token (Sy.transfer views env from to amount) (s, l) ≡ ok (result, (s', l'))
      → Sy.transfer views env from to amount s ≡ ok (result, s')
  moved_inside views env from to amount result s s' l l' h =
      let (r, e, g) = and_then_ok (Sy.transfer views env from to amount s) h in e ∙ grind arith

  transfer-IsSound :
      (views : Views) (env : Env) (from to : ℕ) (amount result : ℤ) (s s' : Sy.State)
      → Sy.transfer views env from to amount s ≡ ok (result, s')
      → IsSound s
      → IsSound s'
  transfer-IsSound views env from to amount result s s' h sound =
      let (t, _) = transfer_ok views env from to amount result s s' h in
      moved-IsSound from to amount {s = s} sound t.positive t.covered t.moved

  -- A market at the rate 2.0 before a mint by an account that holds no YT.
  pub record IsMarket (views : Views) (from sy yt f : ℕ) (j : Joint token) : Type 0 where
    pub wrapper : Sy.State
    pub tokens : State
    pub has_sy : (j.0).sy_wrapper ≡ some sy
    pub at_sy : (j.1).sys sy ≡ some wrapper
    pub sound : IsSound wrapper
    pub has_yt : (j.0).yt_token ≡ some yt
    pub at_yt : (j.1).yts yt ≡ some tokens
    pub newcomer : IsNewcomer from f tokens
    pub same_oracle : unwrap_or tokens.oracle 0 ≡ unwrap_or ((j.0).oracle) 0
    pub quoted : views.get_reference_value (unwrap_or ((j.0).oracle) 0) ≡ ok (pos 20000000)

  -- What such a mint leaves.
  record Issued (from sy yt f b : ℕ) (oracle : ℕ) (j : Joint token) : Type 0 where
    wrapper : Sy.State
    tokens : State
    at_sy : (j.1).sys sy ≡ some wrapper
    sound : IsSound wrapper
    at_yt : (j.1).yts yt ≡ some tokens
    position : IsPosition from b f tokens
    same_oracle : unwrap_or tokens.oracle 0 ≡ oracle

  mint-Issued :
      (views : Views) (env : Env) (from sy yt f n : ℕ) (minted : MintResult) (j j' : Joint token)
      → IsMarket views from sy yt f j
      → mint token views env from (pos n) j ≡ ok (minted, j')
      → (minted.pt_minted ≡ pos (n + n))
        × (minted.yt_minted ≡ pos (n + n))
        × (j'.0 ≡ j.0)
        × (pos 1 ≤ℤ pos n)
        × Issued from sy yt f (n + n) (unwrap_or ((j.0).oracle) 0) j'
  mint-Issued views env from sy yt f n minted j j' k h =
      let m = mint_ok token views env from (pos n) minted j j' h in
      let c = m.calls in
      let rate : m.rate ≡ pos 20000000 = grind (arith, m.quoted, k.quoted) in
      let double : n * 20000000 / 10000000 ≡ n + n = omega arith in
      let priced : minted.pt_minted ≡ pos (n + n) =
        mul_div_ok n 20000000 9999999 (rw rate at m.priced) ∙ ap pos double in
      let sy_same : c.sy ≡ sy = grind (arith, c.has_sy, k.has_sy) in
      let yt_same : c.yt ≡ yt = grind (arith, c.has_yt, k.has_yt) in
      let first : c.shares_in.before ≡ k.wrapper = grind (arith, c.shares_in.at_address, k.at_sy) in
      let moved =
        moved_inside views _ from env.current (pos n) c.returned c.shares_in.before
          c.shares_in.after (j.1).ledger (c.taken).ledger c.shares_in.ran in
      let second : c.index_current.before ≡ k.tokens =
        grind (arith, c.index_current.at_address, c.shares_in.effects, k.at_yt) in
      let idle : c.index_current.after ≡ k.tokens =
        update_idle views 19999999 k.tokens c.index_current.after k.newcomer.at_two
          (rw (sym k.same_oracle) at k.quoted) (rw second at c.index_current.ran) in
      let third : c.yt_out.before ≡ c.index_current.after =
        grind (arith, c.yt_out.at_address, c.pt_out.effects, c.index_current.effects) in
      let issue =
        issue_ok (called_by env c.yt) c.yt_out.before c.yt_out.after views from minted.pt_minted
          c.yt_out.ran in
      let issue' = rw (third, idle, priced) at issue in
      (
        priced,
        m.equal_parts ∙ priced,
        m.storage_kept,
        m.positive,
        record {
          wrapper = c.shares_in.after;
          tokens = c.yt_out.after;
          at_sy =
              rw
                (
                  c.yt_out.effects, c.pt_out.effects, c.index_current.effects, c.shares_in.effects,
                  sy_same,
                )
                (ground arith);
          sound =
              transfer-IsSound views _ from env.current (pos n) c.returned c.shares_in.before
                c.shares_in.after moved (rw (sym first) at k.sound);
          at_yt = rw (sym yt_same) (grind (arith, c.yt_out.effects));
          position =
              issued-IsPosition views _ from (n + n) f k.tokens c.yt_out.after k.newcomer issue';
          same_oracle =
              ap (λ t. unwrap_or (State.oracle t) 0) issue'.effects
              ∙ ap (λ t. unwrap_or (State.oracle t) 0) (settled-frame from k.tokens)
              ∙ k.same_oracle;
        },
      )

  -- If an account without YT mints with n shares at the rate 2.0, of a market whose wrapper's books
  -- are sound and whose YT contract is at that rate, and redeems all that it was issued in one
  -- redemption at the rate 4.0, both successfully, then it was issued 2 n PT and 2 n YT, its PT pay n / 2
  -- units rounded down and its YT at least n: more than the n units that the shares stand for,
  -- from two shares on.
  pub mint_at_two-overpays :
      (views later : Views) (env env' : Env) (from sy yt f n : ℕ) (minted : MintResult)
      (result : RedeemResult) (j k l : Joint token)
      → IsMarket views from sy yt f j
      → mint token views env from (pos n) j ≡ ok (minted, k)
      → later.get_reference_value (unwrap_or ((j.0).oracle) 0) ≡ ok (pos 40000000)
      → redeem token later env' from minted.pt_minted minted.yt_minted k ≡ ok (result, l)
      → (minted.pt_minted ≡ pos (n + n))
        × (minted.yt_minted ≡ pos (n + n))
        × (result.underlying_from_pt ≡ pos (n / 2))
        × (pos n ≤ℤ result.underlying_from_yt)
  mint_at_two-overpays views later env env' from sy yt f zero minted result j k l market hm hv hr =
      let (_, _, _, positive, _) = mint-Issued views env from sy yt f zero minted j k market hm in
      absurd (omega (arith, positive))
  mint_at_two-overpays views later env env' from sy yt f (suc n) minted result j k l market hm hv
        hr =
      let (pt, ytm, kept, _, i) = mint-Issued views env from sy yt f (suc n) minted j k market hm in
      let m = suc n + suc n in
      let r : redeem token later env' from (pos m) (pos m) k ≡ ok (result, l) =
        rw (pt, ytm) at hr in
      let half : m * 10000000 / 40000000 ≡ suc n / 2 = omega arith in
      let has_sy = ap (λ s. s.sy_wrapper) kept ∙ market.has_sy in
      let has_yt = ap (λ s. s.yt_token) kept ∙ market.has_yt in
      let heard : later.get_reference_value (unwrap_or ((k.0).oracle) 0) ≡ ok (pos 40000000) =
        rw kept hv in
      let (_, _, floor) =
        redeem-pt_floor token later env' from m 39999999 sy (pos m) result i.wrapper k l has_sy
          i.at_sy i.sound heard r in
      let (claimed, c, paid) =
        redeem-yt_collects token later env' from (n + suc n) sy yt (pos (suc (n + suc n))) result
          i.wrapper i.tokens k l has_sy i.at_sy i.sound has_yt i.at_yt
          (rw (suc-add n (suc n)) at r) in
      let enough =
        position_collects from n f later i.tokens c.updated i.position (rw i.same_oracle hv)
          c.current in
      (pt, ytm, floor ∙ ap pos half, rw paid (grind (int_laws, enough, c.whole)))
