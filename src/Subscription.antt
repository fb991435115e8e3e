-- ===== src/Subscription.antt =====
-- backend/internal/subscription: plans, pools and their members, and the hosts and endpoints that a
-- user's subscription names. The renderers of client formats are not part of it.
pub mod Store
pub mod Service
pub mod Render
mod Tests
