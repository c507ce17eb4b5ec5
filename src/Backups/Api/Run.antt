-- ===== src/Backups/Api/Run.antt =====
-- backup_apps and restore_apps of plinth/modules/backups/api.py. _is_snapshot_available returns
-- nothing, so there is no snapshot and no subvolume.
use freedom_box.Base.{
  String, Bool, true, false, Option, none, some, List, [], ◌∷◌, contains, if◌then◌else◌,
}
use freedom_box.Effect.{M, or_raise, ◌>>=◌, ◌>>◌}
use freedom_box.App.Lifecycle.Defs.{SetupState, needs_setup, needs_update}
use freedom_box.Backups.Api.Defs.{
  Component, Packet, Machine, Handler, packet_of, run_operation, shutdown_services,
  restore_services, lockdown_apps,
}

-- An app: its id, its setup state, and its component BackupRestore
pub record BackupApp (S : Type 0) : Type 0 where
  pub app_id : String
  pub setup_state : S → SetupState
  pub component : Option (Component S)

abbrev pub is_setup_needed : SetupState → Bool
is_setup_needed needs_setup = true
is_setup_needed _ = false

abbrev pub is_behind : SetupState → Bool
is_behind needs_setup = true
is_behind needs_update = true
is_behind _ = false

module _ {S : Type 0} where
  abbrev pub add_component : Option (Component S) → List (Component S) → List (Component S)
  add_component none cs = cs
  add_component (some c) cs = c ∷ cs

  -- get_all_components_for_backup
  unfoldable pub all_components : List (BackupApp S) → S → List (Component S)
  all_components [] s = []
  all_components (a ∷ as_) s =
      let rest = all_components as_ s in
      if is_setup_needed (a.setup_state s) then rest else add_component a.component rest

  abbrev pub cons_component :
      Option (Component S) → Option (List (Component S)) → Option (List (Component S))
  cons_component (some c) (some cs) = some (c ∷ cs)
  cons_component _ _ = none

  -- get_components_in_order; `none` is the TypeError of an app without the component.
  unfoldable pub components_in_order :
      List (BackupApp S) → List String → Option (List (Component S))
  components_in_order [] ids = some []
  components_in_order (a ∷ as_) ids =
      let rest = components_in_order as_ ids in
      if contains a.app_id ids then cons_component a.component rest else rest

  abbrev pub components_for : List (BackupApp S) → List String → S → Option (List (Component S))
  components_for all [] s = some (all_components all s)
  components_for all (id ∷ ids) s = components_in_order all (id ∷ ids)

module _ {S : Type 0} (machine : Machine S) (handler : Packet → M (S × Packet) (Unit {0})) where
  -- The end of `finally`, after the operation
  abbrev pub finish :
      List (Component S) → List Handler → Option (Unit {0}) × (S × Packet) → Option (Unit {0}) × S
  finish components original_state (result, (s, packet)) =
      (restore_services machine original_state >> λ t.
      (result, lockdown_apps machine components false t))
        s

  -- What backup_apps and restore_apps do with the components
  unfoldable pub run_locked : String → Packet → List (Component S) → M S (Unit {0})
  unfolding run_operation shutdown_services restore_services lockdown_apps
  run_locked operation packet components s =
      (shutdown_services machine components >>= λ original_state t.
      finish components original_state
        (run_operation (λ r. handler r.1 r) operation components (t, packet)))
        (lockdown_apps machine components true s)

  -- backup_apps, where [] stands for no list of apps
  unfoldable pub backup_apps :
      List (BackupApp S) → Option String → Option String → List String → M S (Unit {0})
  unfolding run_locked packet_of all_components components_in_order
  backup_apps all path archive_comment ids = or_raise (components_for all ids) >>= λ components.
      run_locked "backup" (packet_of "backup" components "/" path archive_comment) components

  -- _install_apps_before_restore, where `run_setup_on_apps` is that of setup.py
  abbrev pub behind_ids : (String → S → SetupState) → List (Component S) → S → List String
  behind_ids setup_state [] s = []
  behind_ids setup_state (c ∷ cs) s =
      let rest = behind_ids setup_state cs s in
      if is_behind (setup_state c.manifest.app_id s) then c.manifest.app_id ∷ rest else rest

  -- restore_apps
  unfoldable pub restore_apps :
      (String → S → SetupState)
      → (List String → M S (Unit {0}))
      → List (BackupApp S)
      → Option String
      → List String
      → M S (Unit {0})
  unfolding run_locked packet_of all_components components_in_order
  restore_apps setup_state run_setup_on_apps all backup_file ids =
      or_raise (components_for all ids) >>= λ components.
      (λ s. run_setup_on_apps (behind_ids setup_state components s) s)
      >> run_locked "restore" (packet_of "restore" components "/" backup_file none) components
