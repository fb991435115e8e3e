-- ===== src/Inbounds.antt =====
-- backend/internal/inbounds: the inbound model, its in-memory store, the checks and the service.
pub mod Model
pub mod Store
pub mod Validate
pub mod Service
mod Tests
