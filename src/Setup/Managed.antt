-- ===== src/Setup/Managed.antt =====
-- class ForceUpgrader of plinth/setup.py: which packages of which apps are upgraded by force. The sets
-- are lists.
use freedom_box.Base.{
  String, Bool, true, false, Option, none, some, List, [], ◌∷◌, if◌then◌else◌, keep_if, contains,
}
use freedom_box.Dict.{Dict, lookup, insert, keys}
use freedom_box.Effect.{M, pure, ◌>>=◌}
use freedom_box.App.Lifecycle.Defs.{app_needs_setup}
use freedom_box.Packages.Defs.{Packages, possible_packages}
use freedom_box.Setup.Apps.{Entry, Service}

abbrev pub set_add : String → List String → List String
set_add x xs = if contains x xs then xs else x ∷ xs

abbrev pub set_update : List String → List String → List String
set_update [] xs = xs
set_update (y ∷ ys) xs = set_update ys (set_add y xs)

-- What a defaultdict has for a key, from `get`.
abbrev pub or_empty : {A : Type 0} → Option (List A) → List A
or_empty none = []
or_empty (some xs) = xs

-- package_apps_map[p]
abbrev pub apps_of : String → Dict (List String) → List String
apps_of p m = or_empty (lookup p m)

abbrev pub add_app : String → List String → Dict (List String) → Dict (List String)
add_app id [] m = m
add_app id (p ∷ ps) m = add_app id ps (insert p (set_add id (apps_of p m)) m)

pub record Managed : Type 0 where
  pub packages : List String
  pub package_apps : Dict (List String)

abbrev pub add_components : String → List Packages → Managed → Managed
add_components id [] m = m
add_components id (c ∷ cs) m = add_components id cs (record {
  packages = set_update (possible_packages c.packages) m.packages;
  package_apps = add_app id (possible_packages c.packages) m.package_apps;
})

abbrev pub add_components_if : Bool → String → List Packages → Managed → Managed
add_components_if true id cs m = add_components id cs m
add_components_if false id cs m = m

abbrev pub has_method : {A : Type 0} → Option A → Bool
has_method none = false
has_method (some f) = true

-- apps[id]
abbrev pub packages_of : String → Dict (Dict String) → Dict String
packages_of id apps = or_empty (lookup id apps)

abbrev pub assign_to : String → String → List String → Dict (Dict String) → Dict (Dict String)
assign_to p v [] apps = apps
assign_to p v (id ∷ ids) apps =
    assign_to p v ids (insert id (insert p v (packages_of id apps)) apps)

abbrev pub assign_one :
    String → Option String → List String → Dict (Dict String) → Dict (Dict String)
assign_one p none ids apps = apps
assign_one p (some v) ids apps = assign_to p v ids apps

-- The last loop of _get_list_of_apps_to_force_upgrade
unfoldable pub assign :
    Dict String → Dict (List String) → List String → Dict (Dict String) → Dict (Dict String)
assign conffiles m [] apps = apps
assign conffiles m (p ∷ ps) apps =
    assign conffiles m ps (assign_one p (lookup p conffiles) (apps_of p m) apps)

abbrev pub is_nil : List String → Bool
is_nil [] = true
is_nil (x ∷ xs) = false

module _ {S : Type 0} (service : Service S) where
  open service use {setup_version, upgradable_packages, filter_conffile_prompt_packages}

  -- The app has `force_upgrade` and is set up.
  unfoldable pub is_considered : Entry S → S → Bool
  is_considered e s =
      if has_method e.force_upgrade
      then (if app_needs_setup (setup_version e.app.app_id s) e.app.version then false else true)
      else false

  abbrev pub managed_loop : S → List (Entry S) → Managed → Managed
  managed_loop s [] m = m
  managed_loop s (e ∷ es) m =
      managed_loop s es (add_components_if (is_considered e s) e.app.app_id e.package_components m)

  -- ForceUpgrader._filter_managed_packages
  unfoldable pub filter_managed_packages : List String → S → Managed
  unfolding is_considered
  filter_managed_packages names s =
      let m = managed_loop s service.apps (record { packages = []; package_apps = [] }) in
      record m { packages = keep_if (λ p. contains p names) m.packages }

  abbrev pub list_managed : Managed → M S (Dict (Dict String))
  list_managed m =
      if is_nil m.packages
      then pure []
      else filter_conffile_prompt_packages m.packages >>= λ conffiles.
          pure (assign conffiles m.package_apps (keys conffiles) [])

  -- ForceUpgrader._get_list_of_apps_to_force_upgrade
  unfoldable pub apps_to_force_upgrade : M S (Dict (Dict String))
  unfolding filter_managed_packages assign
  apps_to_force_upgrade = upgradable_packages >>= λ names s.
      if is_nil names then (some [], s) else list_managed (filter_managed_packages names s) s
