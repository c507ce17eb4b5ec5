-- ===== src/App.antt =====
-- plinth/app.py: `Lifecycle` is an app over its components, `Order` the order in which apps are listed
-- after their dependencies.
pub mod Lifecycle
pub mod Order
