-- ===== src/Hosts.antt =====
-- backend/internal/hosts: the host model, its in-memory store, the checks and the service.
pub mod Model
pub mod Store
pub mod Validate
pub mod Service
mod Tests
