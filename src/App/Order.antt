-- ===== src/App/Order.antt =====
-- _sort_apps and _insert_apps of plinth/app.py. The recursion of _insert_apps takes fuel; each call
-- has taken one app off `remaining_apps`, so one more than their number is enough (Grows).
pub mod Defs
pub mod Grows
pub mod Insert
pub mod Sort
pub mod Complete
pub mod Whole
mod Tests
