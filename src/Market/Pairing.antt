-- ===== src/Market/Pairing.antt =====
-- The supplies of PT and YT of one market.
use principal.Base.{ℕ, ◌≡◌, ◌<◌, some, arith}
use principal.Base.Int.{ℤ, ◌+ℤ◌}
use principal.Host.{Env, Views, ok, called_by}
use principal.Token.{Token}
use principal.World.{yt_again}
use principal.Pt
use principal.Pt.Authority as PtAuthority
use principal.Yt
use principal.Yt.Minter
use principal.Manager
use principal.Manager.{MintResult, RedeemResult, Joint, u64_max}
use principal.Manager.Minting.{MintRan}
use principal.Manager.Maturity.{redeem_ok}
use principal.Manager.Claiming.{claim_yield_calls}

module _ (token : Token) (manager pt yt maturity : ℕ) where
  -- The manager is the minter of both tokens, which have the same supply.
  pub record IsPaired (j : Joint token) : Type 0 where
    pub supply : ℤ
    pub pt_admin : ℕ
    pub yt_admin : ℕ
    pub principal_token : Pt.State
    pub yield_token : Yt.State
    pub has_pt : (j.0).pt_token ≡ some pt
    pub has_yt : (j.0).yt_token ≡ some yt
    pub has_maturity : (j.0).maturity ≡ some maturity
    pub pt_at : (j.1).pts pt ≡ some principal_token
    pub yt_at : (j.1).yts yt ≡ some yield_token
    pub pt_side : PtAuthority.HasSupply pt_admin manager supply principal_token
    pub yt_side : Minter.HasSupply yt_admin manager supply yield_token

  module _ (views : Views) (env : Env) (from : ℕ) (shares : ℤ) (result : MintResult)
      (j j' : Joint token) where
    pub mint-IsPaired : MintRan token views env from shares result j j' → IsPaired j → IsPaired j'
    mint-IsPaired m h =
        let c = m.calls in
        let pt_here : c.pt ≡ pt = grind (arith, c.has_pt, h.has_pt) in
        let yt_here : c.yt ≡ yt = grind (arith, c.has_yt, h.has_yt) in
        let yt_before : c.index_current.before ≡ h.yield_token =
          grind (arith, c.index_current.at_address, c.shares_in.effects, yt_here, h.yt_at) in
        let pt_before : c.pt_out.before ≡ h.principal_token = grind (
          arith, c.pt_out.at_address, c.index_current.effects, c.shares_in.effects, pt_here,
          h.pt_at,
        ) in
        let yt_between : c.yt_out.before ≡ c.index_current.after =
          grind (arith, c.yt_out.at_address, c.pt_out.effects, c.index_current.effects) in
        record {
          supply = h.supply +ℤ result.pt_minted;
          pt_admin = h.pt_admin;
          yt_admin = h.yt_admin;
          principal_token = c.pt_out.after;
          yield_token = c.yt_out.after;
          has_pt = rw m.storage_kept h.has_pt;
          has_yt = rw m.storage_kept h.has_yt;
          has_maturity = rw m.storage_kept h.has_maturity;
          pt_at = grind (arith, c.yt_out.effects, c.pt_out.effects, pt_here);
          yt_at = grind (arith, c.yt_out.effects, yt_here);
          pt_side =
              PtAuthority.minted-HasSupply h.pt_admin manager h.supply views (called_by env c.pt)
                from result.pt_minted h.principal_token c.pt_out.after
                (rw pt_before at c.pt_out.ran) h.pt_side;
          yt_side =
              Minter.minted-HasSupply h.yt_admin manager h.supply views (called_by env c.yt) from
                result.pt_minted c.index_current.after c.yt_out.after
                (rw yt_between at c.yt_out.ran)
                (Minter.updated-HasSupply h.yt_admin manager h.supply views h.yield_token
                  c.index_current.after (rw yt_before at c.index_current.ran) h.yt_side);
        }

  -- A call before the maturity redeems nothing.
  pub redeem-IsPaired :
      (views : Views) (env : Env) (from : ℕ) (pt_amount yt_amount : ℤ) (result : RedeemResult)
      (j j' : Joint token)
      → env.timestamp < maturity
      → Manager.redeem token views env from pt_amount yt_amount j ≡ ok (result, j')
      → IsPaired j
      → IsPaired j'
  redeem-IsPaired views env from pt_amount yt_amount result j j' early e h =
      let late = (redeem_ok token views env from pt_amount yt_amount result j j' e).matured in
      absurd (ground (arith, late, h.has_maturity))

  pub claim-IsPaired :
      (views : Views) (env : Env) (from : ℕ) (paid : ℤ) (j j' : Joint token)
      → Manager.claim_yield token views env from j ≡ ok (paid, j')
      → IsPaired j
      → IsPaired j'
  claim-IsPaired views env from paid j j' e h =
      let (claimed, w, c, keeps, _) = claim_yield_calls token views env from paid j j' e in
      let yt_here : c.yt ≡ yt = grind (arith, c.has_yt, h.has_yt) in
      let before : c.index_current.before ≡ h.yield_token =
        grind (arith, c.index_current.at_address, yt_here, h.yt_at) in
      let between = yt_again token c.yt _ _ c.index_current c.cleared in
      record {
        supply = h.supply;
        pt_admin = h.pt_admin;
        yt_admin = h.yt_admin;
        principal_token = h.principal_token;
        yield_token = c.cleared.after;
        has_pt = rw keeps.storage h.has_pt;
        has_yt = rw keeps.storage h.has_yt;
        has_maturity = rw keeps.storage h.has_maturity;
        pt_at = grind (arith, keeps.pts, c.cleared.effects, c.index_current.effects, h.pt_at);
        yt_at = grind (arith, keeps.yts, c.cleared.effects, yt_here);
        pt_side = h.pt_side;
        yt_side =
            Minter.collected-HasSupply h.yt_admin manager h.supply (called_by env c.yt) env.current
              from claimed c.index_current.after c.cleared.after (rw between at c.cleared.ran)
              (Minter.updated-HasSupply h.yt_admin manager h.supply views h.yield_token
                c.index_current.after (rw before at c.index_current.ran) h.yt_side);
      }
