-- ===== src/Setup/Start.antt =====
-- plinth/setup.py: which operations are created for apps, and the setup of apps when the service
-- starts.
use Prim.Native.String.{◌++◌ as str_append}
use freedom_box.Base.{
  ℕ, zero, suc, String, Bool, true, false, ◌&&◌, ◌||◌, not, Option, none, some, List, [], ◌∷◌, leb,
  nat_eq, keep_if, any, map, contains, if◌then◌else◌,
}
use freedom_box.Effect.{M, pure, for_each, ◌>>◌}
use freedom_box.Operation.Defs.{Request}
use freedom_box.App.Lifecycle.Defs.{
  SetupState, needs_update, up_to_date, get_setup_state, app_needs_setup,
}
use freedom_box.Setup.Apps.{Entry, Service}

module _ {S : Type 0} where
  -- run_setup_on_app: the operation that it creates, if any
  unfoldable pub setup_request : Entry S → ℕ → Bool → Option Request
  setup_request e current rerun =
      if not rerun && leb e.app.version current
      then none
      else some (record {
        op_id = str_append e.app.app_id "-setup";
        app_id = e.app.app_id;
        name = if nat_eq current 0 then "Installing app" else "Updating app";
        show_message = not (nat_eq current 0) || not e.is_essential;
        show_notification = not (nat_eq current 0) || not e.is_essential;
      })

  -- run_repair_on_app with a new operation
  unfoldable pub repair_request : Entry S → ℕ → Option Request
  repair_request e current =
      if nat_eq current 0
      then none
      else some (record {
        op_id = str_append e.app.app_id "-repair";
        app_id = e.app.app_id;
        name = "Repairing app";
        show_message = true;
        show_notification = true;
      })

  -- run_uninstall_on_app
  unfoldable pub uninstall_request : Entry S → ℕ → Option Request
  uninstall_request e current =
      if nat_eq current 0
      then none
      else some (record {
        op_id = str_append e.app.app_id "-uninstall";
        app_id = e.app.app_id;
        name = "Uninstalling app";
        show_message = true;
        show_notification = true;
      })

  -- The tests of setup_apps, where [] stands for no list of apps
  abbrev pub is_selected : List String → Bool → Entry S → Bool
  is_selected [] essential e = if essential && not e.is_essential then false else true
  is_selected (id ∷ ids) essential e =
      if essential && not e.is_essential then false else contains e.app.app_id (id ∷ ids)

abbrev pub is_up_to_date : SetupState → Bool
is_up_to_date up_to_date = true
is_up_to_date _ = false

abbrev pub is_update_needed : SetupState → Bool
is_update_needed needs_update = true
is_update_needed _ = false

-- `launch` is OperationsManager.new for a request and whether to install packages, with the join of the
-- operation; it can raise.
module _ {S : Type 0} (service : Service S) (launch : Request → Bool → M S (Unit {0})) where
  open service use {setup_version, apps, is_shutting_down}

  abbrev pub launch_if : Option Request → Bool → M S (Unit {0})
  launch_if none allow_install = pure tt
  launch_if (some request) allow_install = launch request allow_install

  -- run_setup_on_app and join
  unfoldable pub launch_setup : Bool → Entry S → M S (Unit {0})
  unfolding setup_request
  launch_setup allow_install e s =
      launch_if (setup_request e (setup_version e.app.app_id s) false) allow_install s

  abbrev pub launch_selected : List String → Bool → Bool → Entry S → M S (Unit {0})
  launch_selected ids essential allow_install e =
      if is_selected ids essential e then launch_setup allow_install e else pure tt

  -- setup_apps
  unfoldable pub setup_apps : List String → Bool → Bool → M S (Unit {0})
  unfolding launch_setup
  setup_apps ids essential allow_install =
      for_each (launch_selected ids essential allow_install) apps

  -- run_setup_on_apps
  unfoldable pub run_setup_on_apps : List String → Bool → M S (Unit {0})
  unfolding setup_apps
  run_setup_on_apps [] allow_install = setup_apps [] true allow_install
  run_setup_on_apps (id ∷ ids) allow_install = setup_apps (id ∷ ids) false allow_install

  abbrev pub state_of : S → Entry S → SetupState
  state_of s e = get_setup_state (setup_version e.app.app_id s) e.app.version

  -- is_setup_required of _get_apps_for_regular_setup
  unfoldable pub is_setup_required : S → Entry S → Bool
  is_setup_required s e =
      if e.is_essential && not (is_up_to_date (state_of s e))
      then true
      else is_update_needed (state_of s e)

  -- _get_apps_for_regular_setup
  unfoldable pub apps_for_regular_setup : S → List String
  unfolding is_setup_required
  apps_for_regular_setup s = map (λ e. e.app.app_id) (keep_if (is_setup_required s) apps)

  -- _run_regular_setup
  unfoldable pub run_regular_setup : M S (Unit {0})
  unfolding run_setup_on_apps apps_for_regular_setup
  run_regular_setup s = run_setup_on_apps (apps_for_regular_setup s) true s

  -- is_first_setup of run_setup_on_startup
  unfoldable pub is_first_setup : S → Bool
  is_first_setup s =
      any (λ e. e.is_essential && app_needs_setup (setup_version e.app.app_id s) e.app.version) apps

  -- `set_running` assigns is_first_setup_running, and `sleep` is the time between two attempts.
  module _ (set_running : Bool → S → S) (sleep : S → S) where
    -- _run_first_setup
    unfoldable pub run_first_setup : M S (Unit {0})
    unfolding run_setup_on_apps
    run_first_setup s =
        (run_setup_on_apps [] false >> λ t. (some tt, set_running false t)) (set_running true s)

    abbrev pub setup_attempt : Bool → M S (Unit {0})
    setup_attempt first = if first then run_first_setup else run_regular_setup

    abbrev pub after_setup : (S → Option S) → Option (Unit {0}) × S → Option S
    after_setup go (some tt, s) = some s
    after_setup go (none, s) = if is_shutting_down (sleep s) then some (sleep s) else go (sleep s)

    -- The loop of run_setup_on_startup, on fuel
    unfoldable pub startup_loop : Bool → ℕ → S → Option S
    unfolding run_first_setup run_regular_setup
    startup_loop first zero s = none
    startup_loop first (suc fuel) s = after_setup (startup_loop first fuel) (setup_attempt first s)

    -- run_setup_on_startup
    unfoldable pub run_setup_on_startup : ℕ → S → Option S
    unfolding startup_loop is_first_setup
    run_setup_on_startup fuel s = startup_loop (is_first_setup s) fuel s
