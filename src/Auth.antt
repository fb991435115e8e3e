-- ===== src/Auth.antt =====
-- backend/internal/auth: the panel's admins and their sessions.
pub mod Model
pub mod Store
pub mod Service
mod Tests
