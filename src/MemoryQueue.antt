-- ===== src/MemoryQueue.antt =====
-- internal/queue/memoryqueue: a queue in memory. A topic is a ring of messages, a consumer reads it
-- past the offset of its group, and the state is kept in a table of the database.
pub mod Topic
pub mod Queue
pub mod Consumer
mod Examples
