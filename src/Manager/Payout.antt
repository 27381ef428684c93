-- ===== src/Manager/Payout.antt =====
-- What PT pay out against the shares that they were issued for.
use native.Mathlib.Nat.{
  div-mul-le_self, div-le_of_le-mul, le_trans, mul-le-mul_right, mul-le-mul_left, mul_comm,
}
use principal.Base.{
  List, refl, sym, ap, ℕ, zero, suc, ◌*◌, ◌/◌, ◌≤◌, ◌≡◌, ◌∙◌, arith, some, unwrap_or,
}
use principal.Base.Int.{negsuc, ℤ, pos, ◌≤ℤ◌}
use principal.Host.{Env, Views, ok, mul_div_ok, and_then_ok}
use principal.Token.{Token}
use principal.World.{answer}
use principal.Oracle
use principal.Oracle.Updates.{price_or_zero, run-Grows, get_reference_value-pos}
use principal.Sy
use principal.Sy.Soundness.{IsSound}
use principal.Manager.Store.{MintResult, RedeemResult}
use principal.Manager.Entry.{Joint, mint, redeem}
use principal.Manager.Minting.{mint_ok}
use principal.Manager.Maturity.{redeem-pt_floor, redeem_ok}

-- Pricing n shares at one rate and back at a rate that is not lower gives no more than n.
issued_then_redeemed : (n r q m : ℕ) → r ≤ q → m ≤ n * suc r / 10000000 → m * 10000000 / suc q ≤ n
issued_then_redeemed n r q m le hm = div-le_of_le-mul (suc q) (
    le_trans (mul-le-mul_right 10000000 hm) (
      le_trans (div-mul-le_self (n * suc r) 10000000)
        (rw (mul_comm (suc q) n) (mul-le-mul_left n (omega (arith, le))))))

priced_back :
    (n r q m : ℕ)
    → r ≤ q
    → pos m ≤ℤ pos (n * suc r / 10000000)
    → pos (m * 10000000 / suc q) ≤ℤ pos n
priced_back n r q m le hm = omega (arith, issued_then_redeemed n r q m le (omega (arith, hm)))

-- A contract that calls the oracle hears the stored price.
heard :
    (s : Oracle.State) (v : ℤ) → answer Oracle.get_reference_value s ≡ ok v → price_or_zero s ≡ v
unfolding Oracle.get_reference_value
heard s v h = ground arith

positive : (v : ℤ) → pos 1 ≤ℤ v → (r : ℕ) × (v ≡ pos (suc r))
positive (pos zero) h = absurd (omega arith)
positive (pos (suc r)) h = (r, refl)
positive (negsuc n) h = absurd (omega arith)

above : (r : ℕ) (v : ℤ) → pos (suc r) ≤ℤ v → (q : ℕ) × (v ≡ pos (suc q)) × (r ≤ q)
above r (pos zero) h = absurd (omega arith)
above r (pos (suc q)) h = (q, refl, omega arith)
above r (negsuc n) h = absurd (omega arith)

heard-pos :
    (calls : List (Env × Oracle.Call)) (v : ℤ)
    → answer Oracle.get_reference_value (Oracle.run calls Oracle.empty) ≡ ok v
    → (r : ℕ) × (v ≡ pos (suc r))
heard-pos calls v h =
    let (q, e, g) = and_then_ok (Oracle.get_reference_value (Oracle.run calls Oracle.empty)) h in
    let (p, _, _) = get_reference_value-pos calls (q.0) (q.1) e in
    let same : q.0 ≡ v = cc in positive v (rw same at p)

module _ (token : Token) where
  -- PT never pay out more than the shares that they were issued for: if a mint of n shares and a later
  -- redemption both succeed, the first at the price of an OracleAdapter after some history and the
  -- second at its price after any further calls by anybody, then redeeming no more PT than the mint
  -- issued pays for them at most n units, from a wrapper whose books are sound.
  pub principal-bounded :
      (views later : Views) (env env' : Env) (from from' n m sy : ℕ) (yt_amount : ℤ)
      (before after : List (Env × Oracle.Call)) (minted : MintResult) (result : RedeemResult)
      (s : Sy.State) (j j' k k' : Joint token)
      → views.get_reference_value (unwrap_or ((j.0).oracle) 0)
        ≡ answer Oracle.get_reference_value (Oracle.run before Oracle.empty)
      → later.get_reference_value (unwrap_or ((k.0).oracle) 0)
        ≡ answer Oracle.get_reference_value (Oracle.run after (Oracle.run before Oracle.empty))
      → mint token views env from (pos n) j ≡ ok (minted, j')
      → (k.0).sy_wrapper ≡ some sy
      → (k.1).sys sy ≡ some s
      → IsSound s
      → pos m ≤ℤ minted.pt_minted
      → redeem token later env' from' (pos m) yt_amount k ≡ ok (result, k')
      → result.underlying_from_pt ≤ℤ pos n
  principal-bounded views later env env' from from' n m sy yt_amount before after minted result s j
        j' k k' hv hl hm hsy hs sound le hr =
      let a = mint_ok token views env from (pos n) minted j j' hm in
      let b = redeem_ok token later env' from' (pos m) yt_amount result k k' hr in
      let old = Oracle.run before Oracle.empty in
      let (r, er) = heard-pos before a.rate (sym hv ∙ a.quoted) in
      let first : price_or_zero old ≡ a.rate = heard old a.rate (sym hv ∙ a.quoted) in
      let second : price_or_zero (Oracle.run after old) ≡ b.final_rate =
        heard (Oracle.run after old) b.final_rate (sym hl ∙ b.quoted) in
      let rises = run-Grows after old in
      let (q, eq, up) = above r b.final_rate (rw (first, er, second) at rises.price) in
      let priced = mul_div_ok n (suc r) 9999999 (rw er at a.priced) in
      let (_, _, floor) =
        redeem-pt_floor token later env' from' m q sy yt_amount result s k k' hsy hs sound
          (b.quoted ∙ ap ok eq) hr in
      rw floor (priced_back n r q m up (rw priced at le))
