-- ===== src/Setup.antt =====
-- plinth/setup.py: `Apps` is what it sees of an app and of the system. `Managed` and `Upgrade` are
-- ForceUpgrader, `Run` the setup, repair and uninstall of an app in an operation, `Start` which apps
-- are set up and when, `Dpkg` class DpkgHandler. The proofs are in `Assigned` and `Chosen` (Managed),
-- `Upgraded` (Upgrade), `Steps`, `Versions`, `Outcomes`, `Uninstalled` and `Repaired` (Run), `Regular`
-- and `Started` (Start), `Attempts` and `Rerun` (Dpkg).
pub mod Apps
pub mod Managed
pub mod Assigned
pub mod Chosen
pub mod Dpkg
pub mod Upgrade
pub mod Upgraded
pub mod Run
pub mod Steps
pub mod Versions
pub mod Outcomes
pub mod Uninstalled
pub mod Repaired
pub mod Start
pub mod Regular
pub mod Started
pub mod Attempts
pub mod Rerun
mod Tests
mod Cases
