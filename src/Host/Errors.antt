-- ===== src/Host/Errors.antt =====
-- The error enums of the contracts (`pub enum Error` in each contracts/*/src/lib.rs), in the order
-- of their codes, and what makes the host abort a transaction.
pub data OracleError : Type 0 where
  already_initialized unauthorized invalid_value timestamp_too_old : OracleError
  not_initialized value_decreased : OracleError

pub data PermissioningError : Type 0 where
  already_initialized unauthorized not_initialized : PermissioningError

pub data RiskError : Type 0 where
  already_initialized unauthorized not_initialized paused circuit_breaker_tripped : RiskError
  not_pauser already_pauser not_consumer already_consumer zero_amount : RiskError

pub data SyError : Type 0 where
  already_initialized unauthorized not_initialized zero_amount insufficient_shares : SyError
  paused arithmetic_overflow permission_denied not_authorized_on_sac : SyError
  recovery_escrow_already_set not_recovery_escrow issuer_mismatch : SyError

pub data PtError : Type 0 where
  already_initialized unauthorized not_initialized zero_amount insufficient_balance : PtError
  insufficient_allowance permission_denied minter_already_set minter_not_set : PtError
  not_authorized_on_sac issuer_mismatch recovery_escrow_already_set not_recovery_escrow : PtError

pub data YtError : Type 0 where
  already_initialized unauthorized not_initialized zero_amount insufficient_balance : YtError
  insufficient_allowance permission_denied minter_already_set minter_not_set : YtError
  oracle_stale not_authorized_on_sac issuer_mismatch recovery_escrow_already_set : YtError
  not_recovery_escrow : YtError

pub data ManagerError : Type 0 where
  already_initialized unauthorized not_initialized zero_amount not_mature : ManagerError
  already_mature oracle_stale paused permission_denied not_authorized_on_sac : ManagerError
  issuer_mismatch topology_mismatch : ManagerError

pub data EscrowError : Type 0 where
  already_initialized not_initialized unauthorized target_still_authorized : EscrowError
  zero_amount position_underlying_mismatch : EscrowError

-- `auth` is a failed `require_auth`; `overflow` and `div_by_zero` are Rust's checked arithmetic;
-- `no_contract` is a call of an address that holds no such contract; `token` is a failure inside
-- the token contract of the underlying asset.
pub data Panic : Type 0 where
  auth overflow div_by_zero no_contract token : Panic
  oracle : OracleError → Panic
  permissioning : PermissioningError → Panic
  risk : RiskError → Panic
  sy : SyError → Panic
  pt : PtError → Panic
  yt : YtError → Panic
  manager : ManagerError → Panic
  escrow : EscrowError → Panic
