-- ===== src/Plans.antt =====
-- backend/internal/plans: the plan model, its in-memory store and its service.
pub mod Model
pub mod Store
pub mod Service
mod Tests
