-- ===== src/Merkle.antt =====
-- merkle/tree.go and merkle/encoding.go: leaves, layers, the root and proofs.
-- A [32]byte value is the number that its bytes spell, first byte most significant, so that
-- `bytes.Compare` is the order of numbers. Keccak-256 and the ABI encoding of a leaf
-- (go-ethereum) are parameters.
pub mod Crypto
pub mod Tree
pub mod Layers
pub mod Leaves
pub mod Proofs
pub mod Order
mod Tests
