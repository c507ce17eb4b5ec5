-- ===== src/App/Lifecycle/Defs.antt =====
-- class App of plinth/app.py over the interface of its components. A method of a component can change
-- the state of the system and can raise.
use freedom_box.Base.{
  ℕ, String, Bool, true, false, ◌&&◌, ◌||◌, not, Option, none, some, List, [], ◌∷◌, ◌++◌, ◌==◌, leb,
  nat_eq, if◌then◌else◌, keep_if, reverse, any,
}
use freedom_box.Dict.{Dict, lookup, insert, remove, values}
use freedom_box.Effect.{M, pure, for_each, ◌>>=◌}

-- The results of a diagnostic check (plinth/diagnostic_check.py).
pub data Result : Type 0 where
  not_done skipped passed warning failed error : Result

pub record DiagnosticCheck : Type 0 where
  pub check_id : String
  pub description : String
  pub result : Result
  pub component_id : Option String

-- class Component; a class that overrides `diagnose` has diagnostics.
pub record Component (S : Type 0) : Type 0 where
  pub is_leader : Bool
  pub has_diagnostics : Bool
  pub is_available : M S Bool
  pub setup : ℕ → M S (Unit {0})
  pub uninstall : M S (Unit {0})
  pub enable : M S (Unit {0})
  pub disable : M S (Unit {0})
  pub is_enabled : M S Bool
  pub set_enabled : Bool → M S (Unit {0})
  pub diagnose : M S (List DiagnosticCheck)
  pub repair : List DiagnosticCheck → M S Bool

-- The components, in the order in which they were added, and what the subclass of App and the Info
-- component say.
pub record App (S : Type 0) : Type 0 where
  pub app_id : String
  pub version : ℕ
  pub overrides_diagnose : Bool
  pub components : Dict (Component S)

-- App.SetupState
pub data SetupState : Type 0 where
  needs_setup needs_update up_to_date : SetupState

-- App.get_setup_state, from get_setup_version, which is 0 for an app that is not in the database
unfoldable pub get_setup_state : ℕ → ℕ → SetupState
get_setup_state current version =
    if not (nat_eq current 0) && leb version current
    then up_to_date
    else if nat_eq current 0
    then needs_setup
    else needs_update

-- App.needs_setup
abbrev pub app_needs_setup : ℕ → ℕ → Bool
app_needs_setup current version = elim (get_setup_state current version) [
  | needs_setup ↦ true
  | _ ↦ false
]

-- The truth of `component_id`.
abbrev pub has_component : DiagnosticCheck → Bool
has_component check = elim check.component_id [ none ↦ false | some id ↦ not (id == "") ]

-- The grouping of the failed checks in App.repair: `components_failed_checks[id]`
abbrev pub is_about : String → DiagnosticCheck → Bool
is_about id check = elim check.component_id [ none ↦ false | some j ↦ not (j == "") && j == id ]

unfoldable pub checks_of : String → List DiagnosticCheck → List DiagnosticCheck
checks_of id checks = keep_if (is_about id) checks

module _ {S : Type 0} where
  -- App.add
  unfoldable pub add : App S → String → Component S → App S
  add app id c = record app { components = insert id c app.components }

  -- App.remove; `none` is KeyError.
  unfoldable pub remove_component : App S → String → Option (Component S × App S)
  remove_component app id = elim (lookup id app.components) [
    | none ↦ none
    | some c ↦ some (c, record app { components = remove id app.components })
  ]

  -- App.get_component
  unfoldable pub get_component : App S → String → Option (Component S)
  get_component app id = lookup id app.components

  -- `all` with its early end over calls.
  abbrev pub all_of : (Component S → M S Bool) → List (Component S) → M S Bool
  all_of f [] = pure true
  all_of f (c ∷ cs) = f c >>= λ b. if b then all_of f cs else pure false

  -- App.is_available
  unfoldable pub is_available : App S → M S Bool
  is_available app = all_of (λ c. c.is_available) (values app.components)

  -- App.setup
  unfoldable pub setup : App S → ℕ → M S (Unit {0})
  setup app old_version = for_each (λ c. c.setup old_version) (values app.components)

  -- App.uninstall
  unfoldable pub uninstall : App S → M S (Unit {0})
  uninstall app = for_each (λ c. c.uninstall) (reverse (values app.components))

  -- App.enable
  unfoldable pub enable : App S → M S (Unit {0})
  enable app = for_each (λ c. c.enable) (values app.components)

  -- App.disable
  unfoldable pub disable : App S → M S (Unit {0})
  disable app = for_each (λ c. c.disable) (reverse (values app.components))

  -- App.is_enabled
  unfoldable pub is_enabled : App S → M S Bool
  is_enabled app = all_of (λ c. c.is_enabled) (keep_if (λ c. c.is_leader) (values app.components))

  abbrev set_follower : Bool → Component S → M S (Unit {0})
  set_follower enabled c = if c.is_leader then pure tt else c.set_enabled enabled

  -- App.set_enabled
  unfoldable pub set_enabled : App S → Bool → M S (Unit {0})
  set_enabled app enabled = for_each (set_follower enabled) (values app.components)

  abbrev diagnose_all : List (Component S) → M S (List DiagnosticCheck)
  diagnose_all [] = pure []
  diagnose_all (c ∷ cs) =
      c.diagnose >>= λ results. diagnose_all cs >>= λ more. pure (results ++ more)

  -- App.diagnose
  unfoldable pub diagnose : App S → M S (List DiagnosticCheck)
  diagnose app = diagnose_all (values app.components)

  -- App.has_diagnostics
  unfoldable pub has_diagnostics : App S → Bool
  has_diagnostics app =
      if app.overrides_diagnose then true else any (λ c. c.has_diagnostics) (values app.components)

  abbrev pub repair_one : Component S → List DiagnosticCheck → Bool → (Bool → M S Bool) → M S Bool
  repair_one c [] rerun go = go rerun
  repair_one c (check ∷ checks) rerun go =
      c.repair (check ∷ checks) >>= λ result. go (rerun || result)

  -- The loop over the components in App.repair
  unfoldable pub repair_all : List DiagnosticCheck → Dict (Component S) → Bool → M S Bool
  unfolding checks_of
  repair_all checks [] rerun = pure rerun
  repair_all checks ((id, c) ∷ cs) rerun =
      repair_one c (checks_of id checks) rerun (repair_all checks cs)

  -- App.repair
  unfoldable pub repair : App S → List DiagnosticCheck → M S Bool
  unfolding repair_all
  repair app checks =
      repair_all checks app.components (any (λ check. not (has_component check)) checks)
