-- ===== src/Audits.antt =====
-- backend/internal/audits: the log of what the operators changed.
pub mod Model
pub mod Store
pub mod Service
mod Tests
