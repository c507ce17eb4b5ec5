-- ===== src/App/Lifecycle/Versions.antt =====
-- The setup state of an app from its versions.
use freedom_box.Base.{ℕ, ◌<◌, ◌≤◌, ◌≡◌, ◌↔◌, arith, true}
use freedom_box.App.Lifecycle.Defs.{
  needs_setup, needs_update, up_to_date, get_setup_state, app_needs_setup,
}

-- An app needs setup exactly when it was not set up (version 0, also for `needs_setup`), an update
-- exactly when it was set up in an older version than the code's, and is up to date exactly when it
-- was set up in that version or a newer one.
pub get_setup_state_lem :
    (current version : ℕ)
    → ((get_setup_state current version ≡ needs_setup) ↔ (current ≡ 0))
      × ((app_needs_setup current version ≡ true) ↔ (current ≡ 0))
      × ((get_setup_state current version ≡ needs_update) ↔ ((0 < current) × (current < version)))
      × ((get_setup_state current version ≡ up_to_date) ↔ ((0 < current) × (version ≤ current)))
unfolding get_setup_state
get_setup_state_lem current version = (ground arith, ground arith, ground arith, ground arith)
