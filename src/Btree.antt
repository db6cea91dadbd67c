-- ===== src/Btree.antt =====
-- The binary tree of the Kademlia routing table (internal/protocol/dht/ktable/btree).
pub mod Bits
pub mod Node
pub mod Root
mod Examples
