-- ===== src/Webhooks.antt =====
-- backend/internal/webhooks: events posted to endpoints, with retries and a dead-letter queue.
pub mod Model
pub mod Retry
pub mod Store
pub mod Deliver
pub mod Dispatch
pub mod Service
mod Tests
