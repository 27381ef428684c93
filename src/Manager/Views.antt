-- ===== src/Manager/Views.antt =====
-- PrincipalManager: the views that ask the two tokens.
use principal.Base.{ℕ}
use principal.Base.Int.{ℤ}
use principal.Host.{ok, M, ◌>>=◌}
use principal.Token.{Token}
use principal.World.{ask_pt, ask_yt}
use principal.Pt
use principal.Yt
use principal.Manager.Store.{get_pt_token, get_yt_token}
use principal.Manager.Entry.{Joint, own, ask}

module _ (token : Token) where
  unfoldable pub pt_balance : ℕ → M (Joint token) ℤ
  unfolding get_pt_token
  pt_balance account = do
    pt_token ← own token get_pt_token
    ask token (ask_pt token pt_token (λ s. ok (Pt.balance account s)))

  unfoldable pub yt_balance : ℕ → M (Joint token) ℤ
  unfolding get_yt_token
  yt_balance account = do
    yt_token ← own token get_yt_token
    ask token (ask_yt token yt_token (λ s. ok (Yt.balance account s)))

  unfoldable pub total_pt : M (Joint token) ℤ
  unfolding get_pt_token
  total_pt = do
    pt_token ← own token get_pt_token
    ask token (ask_pt token pt_token (λ s. ok (Pt.total_supply s)))

  unfoldable pub total_yt : M (Joint token) ℤ
  unfolding get_yt_token
  total_yt = do
    yt_token ← own token get_yt_token
    ask token (ask_yt token yt_token (λ s. ok (Yt.total_supply s)))
