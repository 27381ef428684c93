-- ===== src/Manager/Topology.antt =====
-- What a successful `initialize` of PrincipalManager has checked of the contracts around it.
use principal.Base.{refl, ℕ, ◌≡◌, true, false, none, some, arith, unwrap_or}
use principal.Host.{Env, Views, ok, is_authorized}
use principal.Token.{Token}
use principal.World.{World}
use principal.Sy
use principal.Pt
use principal.Yt
use principal.Manager.Store.{State}
use principal.Manager.Entry.{Joint, initialize}

module _ (token : Token) where
  -- The wrapper, the PT and the YT of a market, at their addresses, agree on the asset, the registry,
  -- the maturity and the oracle.
  pub record IsCoherent (s : State) (w : World token) : Type 0 where
    pub sy : ℕ
    pub pt : ℕ
    pub yt : ℕ
    pub wrapper : Sy.State
    pub principal_token : Pt.State
    pub yield_token : Yt.State
    pub has_sy : s.sy_wrapper ≡ some sy
    pub has_pt : s.pt_token ≡ some pt
    pub has_yt : s.yt_token ≡ some yt
    pub sy_at : w.sys sy ≡ some wrapper
    pub pt_at : w.pts pt ≡ some principal_token
    pub yt_at : w.yts yt ≡ some yield_token
    pub sy_asset : wrapper.underlying ≡ s.underlying
    pub pt_asset : principal_token.underlying ≡ s.underlying
    pub yt_asset : yield_token.underlying ≡ s.underlying
    pub sy_registry : wrapper.permissioning ≡ s.permissioning
    pub pt_registry : principal_token.permissioning ≡ s.permissioning
    pub yt_registry : yield_token.permissioning ≡ s.permissioning
    pub pt_maturity : principal_token.maturity ≡ s.maturity
    pub yt_maturity : yield_token.maturity ≡ s.maturity
    pub yt_oracle : yield_token.oracle ≡ s.oracle

  module _ (views : Views) (env : Env)
      (admin sy_wrapper pt_token yt_token oracle permissioning underlying maturity : ℕ)
      (j j' : Joint token)
      (h : initialize token views env admin sy_wrapper pt_token yt_token oracle permissioning
          underlying maturity j
        ≡ ok (tt, j')) where
    abbrev wrapper_of : Sy.State
    wrapper_of = unwrap_or ((j.1).sys sy_wrapper) Sy.empty

    abbrev pt_of : Pt.State
    pt_of = unwrap_or ((j.1).pts pt_token) Pt.empty

    abbrev yt_of : Yt.State
    yt_of = unwrap_or ((j.1).yts yt_token) Yt.empty

    initialized :
        (j'.0 ≡ record {
          admin = some admin;
          sy_wrapper = some sy_wrapper;
          pt_token = some pt_token;
          yt_token = some yt_token;
          oracle = some oracle;
          permissioning = some permissioning;
          underlying = some underlying;
          maturity = some maturity;
          paused = some false;
        })
        × (j'.1 ≡ j.1)
    unfolding initialize
    initialized = (ground arith, ground arith)

    stand :
        ((j.1).sys sy_wrapper ≡ some wrapper_of)
        × ((j.1).pts pt_token ≡ some pt_of)
        × ((j.1).yts yt_token ≡ some yt_of)
    unfolding initialize
    stand = (ground arith, ground arith, ground arith)

    assets :
        (wrapper_of.underlying ≡ some underlying)
        × (pt_of.underlying ≡ some underlying)
        × (yt_of.underlying ≡ some underlying)
    unfolding initialize Sy.get_underlying Pt.underlying_address Yt.underlying_address
    assets = (ground arith, ground arith, ground arith)

    registries :
        (wrapper_of.permissioning ≡ some permissioning)
        × (pt_of.permissioning ≡ some permissioning)
        × (yt_of.permissioning ≡ some permissioning)
    unfolding initialize Sy.permissioning_address Pt.permissioning_address Yt.permissioning_address
    registries = (ground arith, ground arith, ground arith)

    terms :
        (pt_of.maturity ≡ some maturity)
        × (yt_of.maturity ≡ some maturity)
        × (yt_of.oracle ≡ some oracle)
    unfolding initialize Pt.maturity Yt.maturity Yt.oracle_address
    terms = (ground arith, ground arith, ground arith)

    guarded :
        ((j.0).admin ≡ none)
        × (is_authorized env admin ≡ true)
        × (views.sac_admin underlying ≡ ok admin)
    unfolding initialize
    guarded = (ground arith, ground arith, ground arith)

    -- An initialization that succeeds is the first, was signed by the admin, who is the issuer of the
    -- asset, changes no other contract, and only joins a wrapper, a PT and a YT that agree with it and
    -- with each other on the asset, the registry, the maturity and the oracle.
    pub initialize-IsCoherent :
        ((j.0).admin ≡ none)
        × (is_authorized env admin ≡ true)
        × (views.sac_admin underlying ≡ ok admin)
        × (j'.1 ≡ j.1)
        × IsCoherent (j'.0) (j'.1)
    initialize-IsCoherent =
        let (new, signed, issuer) = guarded in
        let (own, world) = initialized in
        (
          new,
          signed,
          issuer,
          world,
          rw (own, world)
              (record {
                sy = sy_wrapper;
                pt = pt_token;
                yt = yt_token;
                wrapper = wrapper_of;
                principal_token = pt_of;
                yield_token = yt_of;
                has_sy = refl;
                has_pt = refl;
                has_yt = refl;
                sy_at = stand.0;
                pt_at = stand.1;
                yt_at = stand.2;
                sy_asset = assets.0;
                pt_asset = assets.1;
                yt_asset = assets.2;
                sy_registry = registries.0;
                pt_registry = registries.1;
                yt_registry = registries.2;
                pt_maturity = terms.0;
                yt_maturity = terms.1;
                yt_oracle = terms.2;
              }),
        )
