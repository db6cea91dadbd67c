-- ===== src/Ktable.antt =====
-- The Kademlia routing table (internal/protocol/dht/ktable).
pub mod Base
pub mod ReverseMap
pub mod Node
pub mod Hash
pub mod Keyspace
pub mod Table
mod Examples
