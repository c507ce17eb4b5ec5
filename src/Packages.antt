-- ===== src/Packages.antt =====
-- plinth/package.py: `Defs` is the expressions and the component Packages over the cache of apt,
-- `Keep` which packages an uninstall leaves, `Install` the wait for the package manager and the known
-- packages. `Required` and `Closure` are about the first, `Bounds` and `Known` about the second,
-- `Expressions` about Defs.
pub mod Defs
pub mod Keep
pub mod Install
pub mod Expressions
pub mod Required
pub mod Closure
pub mod Bounds
pub mod Known
mod Tests
