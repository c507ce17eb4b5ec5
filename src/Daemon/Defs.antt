-- ===== src/Daemon/Defs.antt =====
-- class Daemon and class SharedDaemon of plinth/daemon.py.
use freedom_box.Base.{
  String, Bool, true, false, ◌&&◌, ◌||◌, not, Option, none, some, List, [], ◌∷◌, ◌==◌, any,
  if◌then◌else◌,
}
use freedom_box.Effect.{M, pure, ◌>>◌}

-- systemd, as action_utils and the privileged actions call it
pub record Systemd (S : Type 0) : Type 0 where
  pub service_is_enabled : String → Bool → S → Bool
  pub service_is_running : String → S → Bool
  pub is_found : String → S → Bool
  pub enable : String → M S (Unit {0})
  pub disable : String → M S (Unit {0})

-- Daemon, with the id of its app
pub record Daemon : Type 0 where
  pub app_id : String
  pub unit : String
  pub strict_check : Bool
  pub alias : Option String

-- The alias, if it has a text
abbrev pub alias_of : Option String → Option String
alias_of none = none
alias_of (some a) = if a == "" then none else some a

-- Another app: whether it is enabled, and the units of its components SharedDaemon
pub record DaemonApp (S : Type 0) : Type 0 where
  pub app_id : String
  pub is_enabled : S → Bool
  pub shared_units : List String

module _ {S : Type 0} where
  -- The loops of SharedDaemon.disable
  unfoldable pub other_apps_enabled : Daemon → List (DaemonApp S) → S → Bool
  other_apps_enabled d [] s = false
  other_apps_enabled d (app ∷ apps) s =
      (not (app.app_id == d.app_id)
        && any (λ unit. unit == d.unit && app.is_enabled s) app.shared_units)
      || other_apps_enabled d apps s

module _ {S : Type 0} (systemd : Systemd S) where
  open systemd use {service_is_enabled, service_is_running, is_found}

  abbrev pub is_alias_enabled : Option String → Bool → S → Bool
  is_alias_enabled none strict_check s = false
  is_alias_enabled (some a) strict_check s = service_is_enabled a strict_check s

  -- Daemon.is_enabled
  unfoldable pub is_enabled : Daemon → S → Bool
  is_enabled d s =
      is_alias_enabled (alias_of d.alias) d.strict_check s
      || service_is_enabled d.unit d.strict_check s

  abbrev pub and_alias : (String → M S (Unit {0})) → Option String → M S (Unit {0})
  and_alias call none = pure tt
  and_alias call (some a) = call a

  -- Daemon.enable
  unfoldable pub enable : Daemon → M S (Unit {0})
  enable d = systemd.enable d.unit >> and_alias systemd.enable (alias_of d.alias)

  -- Daemon.disable
  unfoldable pub disable : Daemon → M S (Unit {0})
  disable d = systemd.disable d.unit >> and_alias systemd.disable (alias_of d.alias)

  -- SharedDaemon.disable
  unfoldable pub disable_shared : Daemon → List (DaemonApp S) → M S (Unit {0})
  unfolding other_apps_enabled disable
  disable_shared d apps s = if other_apps_enabled d apps s then (some tt, s) else disable d s

  -- The end of ensure_running, after its block
  abbrev pub stop_again : Daemon → Bool → Option (Unit {0}) × S → Option (Unit {0}) × S
  stop_again d true (result, s) = (result, s)
  stop_again d false (result, s) = (systemd.disable d.unit >> λ t. (result, t)) s

  abbrev pub start_first : Daemon → Bool → M S (Unit {0})
  start_first d true = pure tt
  start_first d false = systemd.enable d.unit

  -- Daemon.ensure_running around a block, which is told whether the unit was running
  unfoldable pub ensure_running : Daemon → (Bool → M S (Unit {0})) → M S (Unit {0})
  ensure_running d block s =
      let starting_state = service_is_running d.unit s in
      if is_found d.unit s
      then (start_first d starting_state >> λ t.
            stop_again d starting_state (block starting_state t))
          s
      else block false s
