-- ===== src/Lib.antt =====
-- Hermez node, version 2 (v2/): the number formats, transactions, account store, key-value store with
-- checkpoints, transaction processor and transaction selector of a ZK-rollup node.
--
-- How the program works. The node keeps the rollup's accounts in a StateDB (v2/db/statedb), a Merkle
-- tree of leaves over a key-value store, with indices from addresses and keys to account numbers
-- (Idx). Batches of L1 transactions (deposits, creations, forced transfers and exits, from the
-- contract) and L2 transactions (transfers and exits, from the pool) run through the TxProcessor
-- (v2/txprocessor), which changes accounts, fills an exit tree and gathers fees for the coordinator.
-- The synchronizer runs forged batches through it, the tx selector candidate ones. Amounts and
-- numbers travel as compact byte forms (v2/common). Under every StateDB lies a key-value store
-- (v2/db/kvdb) that copies itself to a checkpoint at the end of each batch and can be reset to one.
-- The tx selector (v2/txselector) picks from the pool what goes into the next batch: it runs each
-- candidate on its own StateDB, creates accounts for receivers and for the coordinator's fees, and
-- starts again from the last checkpoint when a transaction of an atomic group cannot be selected.
--
-- The files, and what they model:
--   Prelude       shared names: tests, lists over native numbers, signed integers for big.Int
--                 (Int), Go's maps (Dict), sort.Ints (Sort), errors and results (Result), methods that
--                 change an object and may fail (Action), well-founded order (Order)
--   Bytes         byte slices: PutUint, SetBytes, copy, slice expressions, SwapEndianness
--   Common.Float40    v2/common/float40.go: Bytes, Float40FromBytes, BigInt, NewFloat40,
--                 NewFloat40Floor
--   Common.Ids    Idx and Nonce of v2/common/account.go, TokenID of v2/common/token.go, BatchNum of
--                 v2/common/batch.go
--   Common.Account    the leaf: Account.Bytes, AccountFromBytes
--   Common.Fee    v2/common/fee.go: setFeeFactorLsh60 (Fee.Table) and CalcFeeAmount
--   Common.Tx     TxType and the fields of Tx (v2/common/tx.go) that the processor reads
--   Common.L1Tx   v2/common/l1tx.go: SetType, Tx; Codec: TxCompressedData, BytesGeneric, BytesUser,
--                 BytesCoordinatorTx, L1UserTxFromBytes
--   Common.PoolL2Tx   v2/common/pooll2tx.go: SetType, Tx; Codec: TxCompressedData,
--                 TxCompressedDataEmpty, TxCompressedDataV2, RqTxCompressedDataV2, HashToSign
--   StateDb       v2/db/statedb: GetAccountInTreeDB, CreateAccountInTreeDB, UpdateAccountInTreeDB,
--                 CreateAccount, UpdateAccount, and the indices of utils.go
--   KvDb          v2/db/kvdb/kvdb.go: NewKVDB, Reset, ResetFromSynchronizer, MakeCheckpoint,
--                 SetCurrentIdx, ListCheckpoints, DeleteCheckpoint, DeleteOldCheckpoints,
--                 MakeCheckpointFromTo and Last. History is what the store promises, Refinement the
--                 proof that it does, Recovery what happens without the checkpoint,
--                 FromSynchronizer the reset from another store; Listing and Restoring are lemmas
--   TxProcessor   v2/txprocessor/txprocessor.go. State is the receiver's fields, Monad runs a method
--                 (what was changed before an error stays changed), Amounts is
--                 computeEffectiveAmounts, Apply the apply* methods, Process is ProcessL1Tx and
--                 ProcessL2Tx, Batch is ProcessTxs, Enough is CheckEnoughBalance
--   TxProcessor.Totals, TxProcessor.Conservation, TxProcessor.Nonces, TxProcessor.Amounts.Checks
--                 the proofs on them
--   TxSelector    v2/txselector/txselector.go: getCoordIdx, coordAccountForTokenID,
--                 processTxToEthAddrBJJ, checkPendingToCreateFutureTxs, canAddL2Tx and
--                 canAddL2TxThatNeedsNewCoordL1Tx; Loop is processL2Txs, Groups the filters, the
--                 validity and fees of atomic groups and sortL2Txs (with RequestOffset2RelativePosition
--                 of v2/api/atomicpool.go), Selection the selection loop and the restarts of
--                 getL1L2TxSelection; Steps, Receivers, Limits, Frames, Places, Checks and the children of
--                 Selection are the proofs
-- Each module's proofs stand in its child modules, its runs on concrete values in Tests modules.
--
-- How the state corresponds. The Merkle tree and the key-value store, which are packages outside the
-- repository, are maps from Idx to account; the hash of a leaf is taken to be collision free, so the
-- hop over it is left out. An account is stored as AccountFromBytes reads it back. The two indices
-- are functions. Accounts that the code passes as pointers are values: where a method uses one
-- pointer for sender and receiver, the model uses the account as just updated. A batch runs on the
-- receiver's StateDB in place, and the checkpoint at its end is the in-memory batch number. In KvDb a
-- storage is the map of byte strings that it holds, and the directory of checkpoints a map from batch
-- numbers; a call returns the new store with its result, and what was changed before an error stays
-- changed. The deletion of old checkpoints, which MakeCheckpoint starts in the background, is a call
-- of its own, between any others. In TxSelector the local StateDB is the one in the state of the
-- TxProcessor, since both are one object, and a reset of it to the current batch gives back the state
-- that the selection starts from.
--
-- Bounds. A number of w bits in Go is a native number whose wrap-around is written out; *big.Int is a
-- signed integer of any size. The loops of the float encoders are recursion on the well-founded order
-- of the mantissa. The selection loop and the restarts of the selector run on fuel, with theorems that
-- more fuel than there are transactions is enough; all other loops are recursion on a list.
--
-- Parameters. What the pool's database answers (Env), the order in which each attempt reads a map, what
-- sort.Slice does with equal elements, and the float64 fees with their comparison, sum and quotient
-- (Runtime) are arguments of the selector's model.
--
-- Not modelled. The batch builder's ZKInputs, the Merkle proofs of exits, faults of the file system
-- and the locks of the key-value store, the choice of the coordinator's accounts and the
-- distribution of fees at the end of a selection, metrics, the coordinator, the synchronizer, the
-- SQL databases, the API, the Ethereum clients and the wiring of the node. Functions of babyjub,
-- Poseidon and the field check are parameters.
pub mod Prelude
pub mod Bytes
pub mod Common
pub mod StateDb
pub mod KvDb
pub mod TxProcessor
pub mod TxSelector
