-- ===== src/Ledger.antt =====
-- What PTToken and YTToken (contracts/pt_token/src/lib.rs, contracts/yt_token/src/lib.rs) promise to
-- their holders: a ledger of balances and of claims, without storage, compliance or settlement.
pub mod Steps
pub mod Histories
