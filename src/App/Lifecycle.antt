-- ===== src/App/Lifecycle.antt =====
-- The classes App and Component of plinth/app.py: `Defs` is the interface of a component and the
-- methods of an app over its components, `Store` is the two components that plinth/app.py defines, over
-- their stored flags. The proofs are in the other children.
pub mod Defs
pub mod Store
pub mod Switch
pub mod Undo
pub mod Repair
pub mod Versions
mod Tests
