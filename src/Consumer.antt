-- ===== src/Consumer.antt =====
-- src/coda_node/server/consumer.py: the Redis Streams consumer.
pub mod State
pub mod Redis
pub mod Job
pub mod Batch
pub mod Loop
pub mod Trace
pub mod Tests
