-- ===== src/Operation.antt =====
-- plinth/operation.py: operations that run in threads, and the manager that runs one at a time.
-- `Defs` is the data and the methods of one Operation, `Manager` the locked methods of
-- OperationsManager, `Threads` the steps that a thread takes. Return values and exceptions stand by
-- their text. Invariants, replies and races are proved in the other children.
pub mod Defs
pub mod Manager
pub mod Threads
pub mod Exclusive
pub mod Safety
pub mod Progress
pub mod Keyed
pub mod Collect
pub mod Replies
pub mod Races
pub mod Window
mod Tests
