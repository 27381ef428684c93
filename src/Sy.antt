-- ===== src/Sy.antt =====
-- SYWrapper (contracts/sy_wrapper/src/lib.rs): shares of one underlying asset.
mod Store
mod Entry
pub mod Rate
pub mod Effects
pub mod Steps
pub mod Soundness
pub mod Roles
pub mod Custody
pub mod Reachable
pub mod Totality
pub mod Redemption
pub mod Roundtrip
unfoldable pub use Store.*
unfoldable pub use Entry.*
