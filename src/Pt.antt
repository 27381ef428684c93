-- ===== src/Pt.antt =====
-- PTToken (contracts/pt_token/src/lib.rs): the principal token.
mod Store
mod Entry
mod Requests
mod Calls
pub mod Effects
pub mod Issue
pub mod Supply
pub mod Authority
pub mod Spending
pub mod Refinement
pub use Requests.{Call}
unfoldable pub use Calls.*
unfoldable pub use Store.*
unfoldable pub use Entry.*
