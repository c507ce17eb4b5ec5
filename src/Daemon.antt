-- ===== src/Daemon.antt =====
-- plinth/daemon.py: `Defs` is Daemon and SharedDaemon over an interface of systemd, `Shared` when a
-- shared daemon is disabled, `Ensured` what ensure_running leaves.
pub mod Defs
pub mod Shared
pub mod Ensured
mod Tests
