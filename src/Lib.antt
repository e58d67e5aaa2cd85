-- ===== src/Lib.antt =====
-- A model of the SSV oracle, a service that commits Merkle roots of the effective balances of SSV
-- clusters to the Ethereum contract and then updates the clusters' balances on chain.
--
-- The parts and the files that model them:
--   merkle/ (tree.go, encoding.go): Merkle. NewTree is `new_tree`, GetProof `get_proof`. Keccak and
--     the ABI packing are the record `Crypto`.
--   oracle/phase.go: Schedule. Validate, PhaseAt and NextTarget are `validate`, `phase_at` and
--     `next_target`; `none` of the last two is a panic.
--   oracle/oracle.go: Oracle. Balances has aggregateByCluster and buildTree, Commit has commit, which
--     syncs, asks the beacon node, builds the tree, stores the row and sends the root, and Loop the
--     loop of Run, which asks Schedule for its next target.
--   updater/updater.go: Updater. One pass over the leaves of a tree, which sends the proofs of
--     Merkle; Commit has processCommit with its second pass, and handleEvent; Run the subscriptions;
--     Lookups the rows of the two passes.
--   txmanager/: Tx. Policy (config.go), Fees, Errors, Receipt and Send (manager.go); Send composes
--     the others as SendTransaction does.
--   eth/retry.go and eth/execution/: Execution. Retry, BatchSize, Errors, Fetch (FetchLogs), Pack
--     (packLogs, with the times of the blocks), Group (groupLogsByBlock) and Calls, the single calls of
--     the two nodes over Retry.
--   eth/beacon/client.go: Beacon. GetValidatorBalances with its batches, which fetchBalances of Oracle
--     asks.
--   storage/storage.go: Storage. Commits is the table oracle_commits, Clusters the tables that the
--     syncer writes; a function for each statement. Encoding has the columns of a cluster row.
--   eth/syncer/: Syncer. Events (types.go), Parser (parser.go), State (syncer.go), Channel
--     (runFetcher and SyncToFinalized of syncer.go) and Overlay (headstate.go). State writes the
--     tables of Storage, Overlay reads them, Channel joins State with FetchLogs of Execution.
--   api/: Api. Hex reads and prints cluster IDs; Proof, Commit and Diff are handleGetProof,
--     handleGetCommit and computeDiff, over the queries of Storage.
--   contract/: Contract. The transactions and calls of client.go, over Tx, with the answers that Oracle
--     and Updater read of them; Updates is processCluster of Updater over them, Events is events.go,
--     and Connect is NewClient and Close, with New and Close of txmanager/manager.go.
--   wallet/: Wallet, NewSigner with the two signers.
--   cmd/oracle/commands/: Config is validate and getMEVRPCs of config.go, which asks Schedule; Cmd is
--     run.go: run, validateChainID, and runServices, which calls SyncToFinalized of Syncer.
-- Prelude has what they share: tests on numbers, lists, association lists for Go maps, sorting,
-- texts and integers.
--
-- Numbers are natural numbers; a uint64 or uint32 keeps its wrap-around where the code computes with
-- it. Byte strings of a fixed length are the number that they spell. A map is an association list.
-- What a node, the database, the beacon node, a signer, a random number or a context does is an
-- argument, one answer for each call or each round; a theorem holds for all answers unless it says
-- otherwise. Concurrency is left out where the code only passes values in order: the channel
-- of SyncToBlock is the list of the batches that come out of it, and the concurrent calls of
-- GetValidatorBalances are taken in the order in which they end, which is an argument.
--
-- A database is called sound where its tables are consistent (as SyncToBlock keeps them), the epochs and
-- the reference blocks of its commits are distinct, and each commit has the root of its own balances.
--
-- Bounds: the loop of buildLayers has as much fuel as there are hashes, and it halves them;
-- SendTransaction has its own number of attempts, WithRetry its own number of retries. FetchLogs has
-- no bound of its own: its passes are a list, the ending `running` tells that the list was too short,
-- and one pass for each block is enough where nothing fails. Polling for a receipt ends with its list
-- as by the context. The loops that cut a list into batches have the length of the list as fuel. The
-- decimal text of a balance has up to 78 digits, which a uint256 needs.
--
-- Not modelled: the HTTP server and its JSON, the metrics server, the command line and the reading of
-- the configuration, the encoding of calls and transactions, keys and signatures, logs and metrics,
-- which only move data in and out; and the failing of the disk.
pub mod Prelude
pub mod Merkle
pub mod Schedule
pub mod Tx
pub mod Execution
pub mod Storage
pub mod Beacon
pub mod Syncer
pub mod Oracle
pub mod Updater
pub mod Api
pub mod Config
pub mod Contract
pub mod Cmd
pub mod Wallet
