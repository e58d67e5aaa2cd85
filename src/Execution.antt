-- ===== src/Execution.antt =====
-- eth/execution/ and eth/retry.go: adaptive batches, the fetching of logs, and retries.
pub mod BatchSize
pub mod Errors
pub mod Fetch
pub mod Group
pub mod Pack
pub mod Retry
pub mod Calls
mod Tests
