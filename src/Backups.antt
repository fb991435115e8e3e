-- ===== src/Backups.antt =====
-- backend/internal/backups/schedule.go: when backups are taken.
pub mod Cron
pub mod Scheduler
mod Tests
