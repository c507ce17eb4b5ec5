-- ===== src/Actions.antt =====
-- plinth/actions.py, the side of the privileged daemon: `Values` is what JSON gives and the annotations
-- of Python, `Check` the check of a request, `Call` the call. `Typing` says what an annotation means,
-- `Binding` how Python binds arguments to parameters, `Safe` what a call can
-- reach. `Log` is the check of the decorator and `_format_args`, `Secrets` that its text has no secret.
pub mod Values
pub mod Check
pub mod Typing
pub mod Binding
pub mod Call
pub mod Safe
pub mod Log
pub mod Secrets
mod Tests
