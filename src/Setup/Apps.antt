-- ===== src/Setup/Apps.antt =====
-- The apps as plinth/setup.py sees them, and what its functions call.
use freedom_box.Base.{ℕ, String, Bool, List, Option}
use freedom_box.Dict.{Dict}
use freedom_box.Effect.{M}
use freedom_box.App.Lifecycle.Defs.{App, DiagnosticCheck}
use freedom_box.App.Lifecycle.Defs as Lifecycle
use freedom_box.Packages.Defs.{Packages}

-- An app with its Info, its method `force_upgrade` if it has one, and its components of type Packages.
pub record Entry (S : Type 0) : Type 0 where
  pub app : App S
  pub is_essential : Bool
  pub force_upgrade : Option (Dict String → M S Bool)
  pub package_components : List Packages

-- What a subclass of App defines or inherits.
pub record Methods (S : Type 0) : Type 0 where
  pub app_id : String
  pub version : ℕ
  pub setup : ℕ → M S (Unit {0})
  pub uninstall : M S (Unit {0})
  pub disable : M S (Unit {0})
  pub diagnose : M S (List DiagnosticCheck)
  pub repair : List DiagnosticCheck → M S Bool

-- The methods of App itself.
abbrev pub inherited : {S : Type 0} → App S → Methods S
inherited app = record {
  app_id = app.app_id;
  version = app.version;
  setup = Lifecycle.setup app;
  uninstall = Lifecycle.uninstall app;
  disable = Lifecycle.disable app;
  diagnose = Lifecycle.diagnose app;
  repair = Lifecycle.repair app;
}

-- The database, apt, the thread-local list of errors, and the exception that was raised last as a text.
pub record Service (S : Type 0) : Type 0 where
  pub apps : List (Entry S)
  pub setup_version : String → S → ℕ
  pub set_setup_version : String → ℕ → M S (Unit {0})
  pub post_setup : String → S → S
  pub refresh_package_lists : M S (Unit {0})
  pub is_package_manager_busy : M S Bool
  pub upgradable_packages : M S (List String)
  pub filter_conffile_prompt_packages : List String → M S (Dict String)
  pub is_shutting_down : S → Bool
  pub errors : S → Option (List String)
  pub set_errors : Option (List String) → S → S
  pub exception : S → String
