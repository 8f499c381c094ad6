-- ===== src/TxProcessor.antt =====
-- v2/txprocessor/txprocessor.go: how a batch of transactions changes the state. `State` holds what
-- the receiver of the methods holds, `Monad` runs its methods, `Amounts` is computeEffectiveAmounts,
-- `Apply` the apply* methods, `Process` ProcessL1Tx and ProcessL2Tx, `Batch` ProcessTxs, and `Enough`
-- CheckEnoughBalance.
pub mod State
pub mod Monad
pub mod Amounts
pub mod Apply
pub mod Process
pub mod Batch
pub mod Steps
pub mod Totals
pub mod Conservation
pub mod Nonces
pub mod Enough
pub mod Example
mod Tests
mod L1Tests
mod EnoughTests
