-- ===== src/Common.antt =====
-- The package `common` of the node (v2/common): the values of the rollup and their encodings.
pub mod Float40
pub mod Ids
pub mod Fee
pub mod Tx
pub mod Account
pub mod L1Tx
pub mod PoolL2Tx
mod Tests
mod CodecTests
