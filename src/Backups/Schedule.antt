-- ===== src/Backups/Schedule.antt =====
-- plinth/modules/backups/schedule.py: `Defs` is the schedule and its tests, `Run` the run over a
-- repository, which is an interface. `Newest` says by their starts which archives a cleanup leaves. The
-- other proofs are in the other children.
pub mod Defs
pub mod Run
pub mod Laws
pub mod Times
pub mod Cleanup
pub mod Cleaned
pub mod Newest
pub mod Trigger
pub mod Again
mod Tests
