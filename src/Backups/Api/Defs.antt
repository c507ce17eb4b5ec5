-- ===== src/Backups/Api/Defs.antt =====
-- plinth/modules/backups/api.py. The system is an interface; the packet, which hooks and the handler
-- can change, is part of the state of their calls.
use Prim.Native.String.{◌++◌ as str_append}
use freedom_box.Base.{
  String, Bool, true, false, Option, none, some, List, [], ◌∷◌, ◌++◌, ◌==◌, if◌then◌else◌,
}
use freedom_box.Effect.{M, pure, for_each, ◌>>=◌, ◌>>◌}

-- A service of a manifest: a text, or a dictionary of the type 'apache'
pub data Service : Type 0 where
  system : String → Service
  apache : String → String → Service

-- The keys of `config`, `data` and `secrets`
pub record Section : Type 0 where
  pub directories : List String
  pub files : List String

pub data Scope : Type 0 where
  full apps : Scope

-- BackupError, with the id of the component's app
pub record BackupError : Type 0 where
  pub error_type : String
  pub component : String
  pub hook : String

-- BackupRestore with its app, without its hooks
pub record Manifest : Type 0 where
  pub app_id : String
  pub config : Section
  pub own_data : Section
  pub secrets : Section
  pub services : List Service
  pub settings : List String

-- Packet
pub record Packet : Type 0 where
  pub operation : String
  pub scope : Scope
  pub root : String
  pub path : Option String
  pub archive_comment : Option String
  pub errors : List BackupError
  pub directories : List String
  pub files : List String

-- BackupRestore with its hooks
pub record Component (S : Type 0) : Type 0 where
  pub manifest : Manifest
  pub hook : String → M (S × Packet) (Unit {0})

abbrev settings_file : Manifest → List String
settings_file m = elim m.settings [
  | [] ↦ []
  | ◌∷◌ x xs ↦
      if m.app_id == ""
      then []
      else str_append "/var/lib/plinth/backups-data/" (str_append m.app_id "-settings.json") ∷ []
]

-- BackupRestore.data
unfoldable pub data_of : Manifest → Section
data_of m = record {
  directories = m.own_data.directories;
  files = m.own_data.files ++ settings_file m;
}

module _ {S : Type 0} where
  -- Packet._process_manifests: the directories and the files
  unfoldable pub directories_of : List (Component S) → List String
  unfolding data_of
  directories_of [] = []
  directories_of (c ∷ cs) =
      c.manifest.config.directories
      ++ ((data_of c.manifest).directories ++ (c.manifest.secrets.directories ++ directories_of cs))

  unfoldable pub files_of : List (Component S) → List String
  unfolding data_of
  files_of [] = []
  files_of (c ∷ cs) =
      c.manifest.config.files
      ++ ((data_of c.manifest).files ++ (c.manifest.secrets.files ++ files_of cs))

  -- Packet.__init__ for the scope 'apps'
  unfoldable pub packet_of :
      String → List (Component S) → String → Option String → Option String → Packet
  unfolding directories_of files_of
  packet_of operation components root path archive_comment = record {
    operation = operation;
    scope = apps;
    root = root;
    path = path;
    archive_comment = archive_comment;
    errors = [];
    directories = directories_of components;
    files = files_of components;
  }

  abbrev pub add_error : Component S → String → Packet → Packet
  add_error c hook p = record p {
    errors =
        p.errors ++ record { error_type = "hook"; component = c.manifest.app_id; hook = hook } ∷ [];
  }

  abbrev pub after_hook : Component S → String → Option (Unit {0}) × (S × Packet) → S × Packet
  after_hook c hook (some tt, r) = r
  after_hook c hook (none, (s, p)) = (s, add_error c hook p)

  -- _run_hooks
  unfoldable pub run_hooks : String → List (Component S) → S × Packet → S × Packet
  run_hooks hook [] r = r
  run_hooks hook (c ∷ cs) r = run_hooks hook cs (after_hook c hook (c.hook hook r))

  -- _run_operation, where `handler` has its passphrase
  unfoldable pub run_operation :
      M (S × Packet) (Unit {0}) → String → List (Component S) → M (S × Packet) (Unit {0})
  unfolding run_hooks
  run_operation handler operation components r =
      (handler >> λ t. (some tt, run_hooks (str_append operation "_post") components t))
        (run_hooks (str_append operation "_pre") components r)

-- The services of the system and of the web server, and the flag `locked` of an app.
pub record Machine (S : Type 0) : Type 0 where
  pub service_is_running : String → S → Bool
  pub stop : String → M S (Unit {0})
  pub start : String → M S (Unit {0})
  pub webserver_is_enabled : String → String → S → Bool
  pub disable : String → String → M S (Unit {0})
  pub enable : String → String → M S (Unit {0})
  pub locked : String → S → Bool
  pub set_locked : String → Bool → S → S

-- ServiceHandler with `was_running` or `was_enabled`
pub record Handler : Type 0 where
  pub service : Service
  pub was_on : Option Bool

module _ {S : Type 0} (machine : Machine S) where
  abbrev pub is_on : Service → S → Bool
  is_on (system name) s = machine.service_is_running name s
  is_on (apache name kind) s = machine.webserver_is_enabled name kind s

  abbrev pub turn_off : Service → M S (Unit {0})
  turn_off (system name) = machine.stop name
  turn_off (apache name kind) = machine.disable name kind

  abbrev pub turn_on : Service → M S (Unit {0})
  turn_on (system name) = machine.start name
  turn_on (apache name kind) = machine.enable name kind

  -- SystemServiceHandler.stop and ApacheServiceHandler.stop
  abbrev pub stop_if : Bool → Service → M S (Unit {0})
  stop_if was v = if was then turn_off v else pure tt

  unfoldable pub stop_handler : Handler → M S Handler
  stop_handler h s =
      let was = is_on h.service s in
      (stop_if was h.service >> pure (record h { was_on = some was })) s

  -- SystemServiceHandler.restart and ApacheServiceHandler.restart
  unfoldable pub restart : Handler → M S (Unit {0})
  restart h = elim h.was_on [
    | some true ↦ turn_on h.service
    | some false ↦ pure tt
    | none ↦ pure tt
  ]

  -- The second loop of _shutdown_services, in the reverse order
  unfoldable pub stop_reversed : List Handler → M S (List Handler)
  unfolding stop_handler
  stop_reversed [] = pure []
  stop_reversed (h ∷ hs) =
      stop_reversed hs >>= λ stopped. stop_handler h >>= λ h'. pure (h' ∷ stopped)

  abbrev pub add_handlers : List Service → List Handler → List Handler
  add_handlers [] hs = hs
  add_handlers (v ∷ vs) hs = record { service = v; was_on = none } ∷ add_handlers vs hs

  -- ServiceHandler.create for the services of all components
  unfoldable pub handlers_of : List (Component S) → List Handler
  handlers_of [] = []
  handlers_of (c ∷ cs) = add_handlers c.manifest.services (handlers_of cs)

  -- _shutdown_services
  unfoldable pub shutdown_services : List (Component S) → M S (List Handler)
  unfolding stop_reversed handlers_of
  shutdown_services components = stop_reversed (handlers_of components)

  -- _restore_services
  unfoldable pub restore_services : List Handler → M S (Unit {0})
  unfolding restart
  restore_services original_state = for_each restart original_state

  -- _lockdown_apps
  unfoldable pub lockdown_apps : List (Component S) → Bool → S → S
  lockdown_apps [] lockdown s = s
  lockdown_apps (c ∷ cs) lockdown s =
      lockdown_apps cs lockdown (machine.set_locked c.manifest.app_id lockdown s)
