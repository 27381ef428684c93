-- ===== src/Escrow.antt =====
-- RecoveryEscrow (contracts/recovery_escrow/src/lib.rs): the recovery of a deauthorized account's
-- positions for the issuer.
mod Store
mod Entry
pub mod Seizing
pub mod Positions
pub mod Finalizing
unfoldable pub use Store.*
unfoldable pub use Entry.*
