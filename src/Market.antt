-- ===== src/Market.antt =====
-- One market at work: a PrincipalManager, its PT and YT contracts, and everybody who calls them
-- (contracts/principal_manager/src/lib.rs, contracts/pt_token/src/lib.rs,
-- contracts/yt_token/src/lib.rs).
pub mod Steps
pub mod Pairing
pub mod Supplies
