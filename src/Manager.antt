-- ===== src/Manager.antt =====
-- PrincipalManager (contracts/principal_manager/src/lib.rs): shares in, PT and YT out, and back.
mod Store
mod Entry
mod Views
mod Access
pub mod Minting
pub mod Redeeming
pub mod Maturity
pub mod Moving
pub mod Claiming
pub mod Yielding
pub mod Legs
pub mod Topology
pub mod Payout
pub mod Paying
pub mod Refusals
pub mod Solvency
unfoldable pub use Store.*
unfoldable pub use Entry.*
unfoldable pub use Views.*
pub use Access.*
