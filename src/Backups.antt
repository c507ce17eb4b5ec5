-- ===== src/Backups.antt =====
-- plinth/modules/backups: the schedule of automatic backups, and the backup and restore of apps.
pub mod Dates
pub mod Schedule
pub mod Api
