-- ===== src/Lib.antt =====
-- Principal Protocol: the contracts of contracts/ as functions on their storage.
--
-- The protocol splits a yield-bearing Stellar asset into principal (PT) and yield (YT). Eight
-- contracts, one file of the repository and one module here each:
--
-- - Oracle: contracts/oracle_adapter/src/lib.rs, the admin's reference value and its time.
-- - Permissioning: contracts/permissioning/src/lib.rs, the allow-lists.
-- - RiskControl: contracts/risk_control/src/lib.rs, the pause and the circuit breaker.
-- - Sy: contracts/sy_wrapper/src/lib.rs, shares of the underlying asset. It calls Permissioning and
--   the asset's contract.
-- - Pt: contracts/pt_token/src/lib.rs, the principal token, and Yt: contracts/yt_token/src/lib.rs,
--   the yield token with its index. Both call Permissioning and the asset's contract, Yt the oracle
--   too. Allowance holds the allowances that they share.
-- - Manager: contracts/principal_manager/src/lib.rs. It takes shares and mints PT and YT, and burns
--   them and withdraws shares, by calls of Sy, Pt and Yt.
-- - Escrow: contracts/recovery_escrow/src/lib.rs. It seizes from a deauthorized account by calls of
--   Sy, Pt and Yt, and redeems what it has seized by calls of Manager.
--
-- In each module a record State has one field for each key of the contract's DataKey, and each entry
-- point and each helper is a function of the same name on it (Store: views and guards; Entry: what
-- writes; Yt/Accrual: the index and the settlement). Where a function of the source is cut in two,
-- the comment says which part each is: deposit_effects and withdraw_effects are what deposit and
-- withdraw do before they call the token, mint_calls the calls of mint, count_deposit the part of
-- check_deposit below its early return. Call and apply are the writing calls of a contract and one
-- transaction; run is a history of them. Sy/Steps has the histories of the wrapper beside the token
-- as a step relation, and Market/Steps those of a manager beside its PT and YT contracts, with calls
-- of the manager, calls of the tokens by others, and whatever else happens around them.
--
-- Ledger is the specification of both tokens: balances, a supply, and what each account could collect,
-- as functions; its events and steps say what a call may do to them. Pt/Refinement and Yt/LedgerView
-- read a contract's state as such a ledger; Yt/Refinement has the event of each call. Yt/Claimable
-- computes what an account of YT could collect from its settled claim, its snapshot and the index,
-- without the settlement that the code puts off to the account's next transfer.
--
-- Host is what the contracts use of Soroban. A call is a function that returns a value and the new
-- storage, or a panic; the host rolls back a transaction that panics (commit). An address has
-- authorized a call if its signature covers it or if it is the contract that makes the call
-- (is_authorized, called_by). Host/Arith is i128 and u64 arithmetic: Cargo.toml sets
-- overflow-checks and panic = "abort", so an operation that does not fit aborts, and so does a
-- division by zero. Base/Int holds integers over the native numbers with division that truncates
-- towards zero, Base/Balances the accounts' amounts. World holds the contracts that Manager and
-- Escrow call, by their addresses.
--
-- Parameters: the contract of the underlying asset is not in the repository. Its ledger and transfer
-- are the record Token, with the documented behaviour as laws: a transfer that succeeds moves the
-- amount and nothing else, no balance is negative, and no contract is called back. A clawback by the
-- issuer of the asset is a step of Sy/Steps, which keeps account of it. Token/Simple is one such
-- contract. What the asset, Permissioning and the oracle answer to the other contracts in one
-- transaction is the record Views, any answers at all, panics included; a history has its own Views
-- and Env for each call.
--
-- Left out: events, which no contract reads; extend_ttl, since the host archives an entry whose
-- lifetime ends and no call reads it as absent (Permissioning/Lapses has histories of the
-- allow-lists that hold if one does); strings other than the names of the tokens. Addresses are
-- numbers. Nothing here recurses on fuel: the loop of grant_accounts is recursion on its list.
-- contracts/integration_tests is a test harness and is not modelled. Tests runs the contracts on
-- concrete inputs. Its modules named *Unit translate the unit tests beside the contracts, the mod
-- test of each lib.rs: a test is a sequence of calls that ends in its assertions, or one that must
-- panic, and each suite is proved to pass. Tests/Chain is the fixture that the tests of the share,
-- the tokens, the manager and the escrow set up; generated addresses are fixed numbers, and
-- mock_all_auths is an Env in which every address has signed.
pub mod Base
pub mod Host
pub mod Ledger
pub mod Oracle
pub mod Permissioning
pub mod RiskControl
pub mod Token
pub mod Sy
pub mod Allowance
pub mod Pt
pub mod Yt
pub mod World
pub mod Manager
pub mod Market
pub mod Escrow
pub mod Tests
