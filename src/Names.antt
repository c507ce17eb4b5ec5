-- ===== src/Names.antt =====
-- plinth/modules/names/components.py: the domain names of the system. `Defs` is the components and
-- their lists, `Listed` the order of the list of domains and the names without repetition.
pub mod Defs
pub mod Listed
mod Tests
