-- ===== src/Crypto.antt =====
-- The hashes, their text, and the Merkle tree (src/crypto/).
pub mod Hash
pub mod Merkle
pub mod Hex
