-- ===== src/Diagnostics.antt =====
-- plinth/modules/diagnostics/__init__.py: `Defs` is the run over all apps and what is reported of it,
-- `Expected` what the apps are to give, `Filled` that the results are this and what the progress is,
-- `Counted` what is counted of an app, and `Summary` of all.
pub mod Defs
pub mod Expected
pub mod Filled
pub mod Counted
pub mod Summary
mod Tests
