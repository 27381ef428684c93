-- ===== src/Market/Supplies.antt =====
-- The supplies of PT and YT over histories of one market.
use principal.Base.{ℕ, ◌≡◌, ◌∙◌, some, arith, sym}
use principal.Host.{commit_induction}
use principal.Token.{Token}
use principal.World.{World}
use principal.Pt
use principal.Pt.Authority as PtAuthority
use principal.Yt
use principal.Yt.Minter
use principal.Manager
use principal.Manager.{MintResult, RedeemResult, Joint, u64_max}
use principal.Manager.Minting.{mint_ok}
use principal.Market.Steps.{Step, Reach}
use principal.Market.Pairing.{IsPaired, mint-IsPaired, redeem-IsPaired, claim-IsPaired}

module _ (token : Token) (manager pt yt maturity : ℕ) where
  -- The manager's storage may change in what pairing does not read.
  storage-IsPaired :
      (s : Manager.State) (j : Joint token)
      → s.pt_token ≡ (j.0).pt_token
      → s.yt_token ≡ (j.0).yt_token
      → s.maturity ≡ (j.0).maturity
      → IsPaired token manager pt yt maturity j
      → IsPaired token manager pt yt maturity (s, j.1)
  storage-IsPaired s j p y m h = record {
    supply = h.supply;
    pt_admin = h.pt_admin;
    yt_admin = h.yt_admin;
    principal_token = h.principal_token;
    yield_token = h.yield_token;
    has_pt = p ∙ h.has_pt;
    has_yt = y ∙ h.has_yt;
    has_maturity = m ∙ h.has_maturity;
    pt_at = h.pt_at;
    yt_at = h.yt_at;
    pt_side = h.pt_side;
    yt_side = h.yt_side;
  }

  world-IsPaired :
      (w : World token) (j : Joint token) (p : Pt.State) (y : Yt.State)
      → (h : IsPaired token manager pt yt maturity j) → w.pts pt ≡ some p
      → w.yts yt ≡ some y
      → PtAuthority.HasSupply h.pt_admin manager h.supply p
      → Minter.HasSupply h.yt_admin manager h.supply y
      → IsPaired token manager pt yt maturity (j.0, w)
  world-IsPaired w j p y h hp hy sp sy = record {
    supply = h.supply;
    pt_admin = h.pt_admin;
    yt_admin = h.yt_admin;
    principal_token = p;
    yield_token = y;
    has_pt = h.has_pt;
    has_yt = h.has_yt;
    has_maturity = h.has_maturity;
    pt_at = hp;
    yt_at = hy;
    pt_side = sp;
    yt_side = sy;
  }

  Step-IsPaired :
      (j k : Joint token)
      → Step token manager pt yt maturity j k
      → IsPaired token manager pt yt maturity j
      → IsPaired token manager pt yt maturity k
  unfolding Manager.set_paused Manager.transfer_admin Manager.assert_admin Manager.require_admin
  Step-IsPaired j k (Step.mints views env from shares j' here early) h =
      commit_induction (IsPaired token manager pt yt maturity) j _ h λ r j' e.
        mint-IsPaired token manager pt yt maturity views env from shares r j j'
          (mint_ok token views env from shares r j j' e) h
  Step-IsPaired j k (Step.redeems views env from p y j' here early) h =
      commit_induction (IsPaired token manager pt yt maturity) j _ h
        λ r j' e. redeem-IsPaired token manager pt yt maturity views env from p y r j j' early e h
  Step-IsPaired j k (Step.claims views env from j' here) h =
      commit_induction (IsPaired token manager pt yt maturity) j _ h
        λ r j' e. claim-IsPaired token manager pt yt maturity views env from r j j' e h
  Step-IsPaired j k (Step.pauses env caller paused j') h =
      storage-IsPaired _ j (ground arith) (ground arith) (ground arith) h
  Step-IsPaired j k (Step.hands_over env old new j') h =
      storage-IsPaired _ j (ground arith) (ground arith) (ground arith) h
  Step-IsPaired j k (Step.calls_pt views env call p j' q e) h =
      let same : p ≡ h.principal_token = grind (arith, e, h.pt_at) in
      world-IsPaired _ j (Pt.apply_call views env call p) h.yield_token h (ground arith) h.yt_at
        (PtAuthority.apply_call-HasSupply h.pt_admin manager h.supply views env call p q
          (rw same h.pt_side))
        h.yt_side
  Step-IsPaired j k (Step.calls_yt views env call y j' q e) h =
      let same : y ≡ h.yield_token = grind (arith, e, h.yt_at) in
      world-IsPaired _ j h.principal_token (Yt.apply_call views env call y) h h.pt_at (ground arith)
        h.pt_side
        (Minter.apply_call-HasSupply h.yt_admin manager h.supply views env call y q
          (rw same h.yt_side))
  Step-IsPaired j k (Step.elsewhere w j' p y) h =
      world-IsPaired w j h.principal_token h.yield_token h (p ∙ h.pt_at) (y ∙ h.yt_at) h.pt_side
        h.yt_side

  Reach-IsPaired :
      (start j : Joint token)
      → Reach token manager pt yt maturity start j
      → IsPaired token manager pt yt maturity start
      → IsPaired token manager pt yt maturity j
  Reach-IsPaired start j Reach.here h = h
  Reach-IsPaired start last (Reach.after {j = i} r s) h =
      Step-IsPaired i last s (Reach-IsPaired start i r h)

  -- Before the maturity PT and YT stand in pairs: from a market whose manager is the minter of both
  -- tokens at equal supplies, whatever transactions of anybody follow, in whatever order and whether
  -- they succeed or panic, the supplies stay equal.
  pub Reach-paired :
      (start j : Joint token) (p : Pt.State) (y : Yt.State)
      → IsPaired token manager pt yt maturity start
      → Reach token manager pt yt maturity start j
      → (j.1).pts pt ≡ some p
      → (j.1).yts yt ≡ some y
      → Pt.total_supply p ≡ Yt.total_supply y
  Reach-paired start j p y h r hp hy =
      let k = Reach-IsPaired start j r h in
      let same_pt : p ≡ k.principal_token = grind (arith, hp, k.pt_at) in
      let same_yt : y ≡ k.yield_token = grind (arith, hy, k.yt_at) in
      rw (same_pt, same_yt) (k.pt_side.has_supply ∙ sym k.yt_side.has_supply)
