-- ===== src/Tests.antt =====
-- Runs of the contracts on concrete inputs, and each theorem at one of them.
mod Fixtures
mod OracleRuns
mod PermissioningRuns
mod RiskRuns
mod SyRuns
mod WrapperRuns
mod PtRuns
mod YtRuns
mod Unit
mod OracleUnit
mod PermissioningUnit
mod RiskUnit
mod SyUnit
mod PtUnit
mod YtUnit
mod ManagerUnit
mod EscrowUnit
mod Market
mod LedgerRuns
mod ManagerRuns
mod YieldRuns
mod MarketRuns
mod PayingRuns
mod Chain
mod EscrowRuns
