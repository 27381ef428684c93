-- ===== src/Sy/Roles.antt =====
-- The calls of SYWrapper that rewrite a role or a switch and leave the books alone.
use principal.Base.{unwrap_or, ℕ, ◌≡◌, some, Bool, arith}
use principal.Host.{Env, ok}
use principal.Sy.Store.{State}
use principal.Sy.Entry
use principal.Sy.Entry.{Joint}

-- A call that rewrites only roles and switches.
pub record SameBooks (s s' : State) : Type 0 where
  pub same_underlying : s'.underlying ≡ s.underlying
  pub same_total : s'.total_underlying ≡ s.total_underlying
  pub same_shares : s'.total_shares ≡ s.total_shares
  pub same_balances : s'.balances ≡ s.balances
  pub admin_after : ℕ
  pub has_admin : s'.admin ≡ some admin_after

pub set_paused-SameBooks :
    (env : Env) (caller : ℕ) (paused : Bool) (s s' : State)
    → Entry.set_paused env caller paused s ≡ ok (tt, s')
    → SameBooks s s'
unfolding Entry.set_paused
set_paused-SameBooks env caller paused s s' e = record {
  same_underlying = ground arith;
  same_total = ground arith;
  same_shares = ground arith;
  same_balances = ground arith;
  admin_after = unwrap_or s.admin 0;
  has_admin = ground arith;
}

pub transfer_admin-SameBooks :
    (env : Env) (current_admin new_admin : ℕ) (s s' : State)
    → Entry.transfer_admin env current_admin new_admin s ≡ ok (tt, s')
    → SameBooks s s'
unfolding Entry.transfer_admin
transfer_admin-SameBooks env current_admin new_admin s s' e = record {
  same_underlying = ground arith;
  same_total = ground arith;
  same_shares = ground arith;
  same_balances = ground arith;
  admin_after = new_admin;
  has_admin = ground arith;
}

pub set_recovery_escrow-SameBooks :
    (env : Env) (admin escrow : ℕ) (s s' : State)
    → Entry.set_recovery_escrow env admin escrow s ≡ ok (tt, s')
    → SameBooks s s'
unfolding Entry.set_recovery_escrow
set_recovery_escrow-SameBooks env admin escrow s s' e = record {
  same_underlying = ground arith;
  same_total = ground arith;
  same_shares = ground arith;
  same_balances = ground arith;
  admin_after = admin;
  has_admin = ground arith;
}
