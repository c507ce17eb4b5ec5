-- ===== src/Daemon/Tests.antt =====
-- A systemd that has whether the one unit is enabled and whether it runs.
use freedom_box.Base.{◌≡◌, ◌⊎◌, refl, Bool, true, false, none, some, [], ◌∷◌}
use freedom_box.Effect.{raise}
use freedom_box.Daemon.Defs.{Daemon, DaemonApp, Systemd, ensure_running, disable, disable_shared}
use freedom_box.Daemon.Ensured.{IsSystemd, ensure_running_lem}
use freedom_box.Daemon.Shared.{IsUsed, disable_shared_lem}

abbrev State : Type 0
State = Bool × Bool

abbrev systemd : Systemd State
systemd = record {
  service_is_enabled = λ unit strict_check s. s.0;
  service_is_running = λ unit s. s.1;
  is_found = λ unit s. true;
  enable = λ unit s. (some tt, (true, true));
  disable = λ unit s. (some tt, (false, false));
}

abbrev db : Daemon
db = record { app_id = "blog"; unit = "db"; strict_check = false; alias = none }

db-IsSystemd : IsSystemd systemd db
db-IsSystemd = record { enabled = λ s. (refl, refl); disabled = λ s. (refl, refl, refl) }

-- The unit is enabled but does not run, and the block raises.
ensure_running_lem_example :
    let end = ensure_running systemd db (λ b. raise) (true, false) in
    (true ≡ true) × (end.0 ≡ none) × (end.1.1 ≡ false) × (false ≡ false → end.1.0 ≡ false)
ensure_running_lem_example =
    ensure_running_lem systemd db (λ b. raise) (true, false) db-IsSystemd (λ b t. refl) refl

abbrev wiki : DaemonApp State
wiki = record { app_id = "wiki"; is_enabled = λ s. true; shared_units = "db" ∷ [] }

disable_shared_lem_example :
    (IsUsed db (true, true) (wiki ∷ [])
      × (disable_shared systemd db (wiki ∷ []) (true, true) ≡ (some tt, (true, true))))
    ⊎ (¬ IsUsed db (true, true) (wiki ∷ [])
        × (disable_shared systemd db (wiki ∷ []) (true, true) ≡ disable systemd db (true, true)))
disable_shared_lem_example = disable_shared_lem systemd db (wiki ∷ []) (true, true)
