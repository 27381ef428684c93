-- ===== src/Yt.antt =====
-- YTToken (contracts/yt_token/src/lib.rs): the yield token.
mod Store
mod Accrual
mod Entry
pub mod Settle
pub mod Claimable
pub mod LedgerView
pub mod Refinement
pub mod Metered
pub mod Collecting
pub mod Claims
pub mod Earning
mod Requests
mod Calls
pub mod Effects
pub mod Issue
pub mod Supply
pub mod Authority
pub mod Minter
pub mod Index
pub mod Rounding
pub use Requests.{Call}
unfoldable pub use Calls.*
unfoldable pub use Store.*
unfoldable pub use Accrual.*
unfoldable pub use Entry.*
