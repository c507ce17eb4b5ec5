-- ===== src/LetsEncrypt.antt =====
-- plinth/modules/letsencrypt/components.py: the certificates that apps get from Let's Encrypt. `Defs`
-- is the component over an interface of the privileged calls, `Hooks` which domains its event hooks
-- are about, `Copied` what they leave of the copies,
-- `Events` the event for all components, and `Isolated` that it reaches each.
pub mod Defs
pub mod Hooks
pub mod Copied
pub mod Events
pub mod Isolated
mod Tests
mod Cases
