-- ===== src/Webhook.antt =====
-- src/coda_node/server/webhook.py: the payload of a job's result and its delivery with retries.
mod Payload
pub mod Client
pub mod Retry
pub mod Course
mod Tests
unfoldable pub use Payload.*
