-- ===== src/Backups/Api.antt =====
-- plinth/modules/backups/api.py with class BackupRestore of components.py: `Defs` and `Run` are the
-- backup and the restore of apps, `Services` that services are as before, `Stopped` which are
-- stopped in between, `Guarded` what a backup leaves.
pub mod Defs
pub mod Run
pub mod Services
pub mod Stopped
pub mod Guarded
mod Tests
