-- ===== src/Network.antt =====
-- The messages between nodes and what handles them (src/network/).
pub mod Message
pub mod Worker
pub mod Peer
pub mod Slab
pub mod Server
