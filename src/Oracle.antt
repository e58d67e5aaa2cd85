-- ===== src/Oracle.antt =====
-- oracle/oracle.go: the balances that a commit is about, the commit, and the loop that decides when to commit.
pub mod Balances
pub mod Loop
pub mod Commit
mod Tests
