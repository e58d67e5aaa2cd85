-- ===== src/Tx.antt =====
-- txmanager/: the policy, gas fees, the errors of a node, waiting for a receipt, and sending.
pub mod Policy
pub mod Fees
pub mod Errors
pub mod Receipt
pub mod Send
mod Tests
