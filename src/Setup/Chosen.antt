-- ===== src/Setup/Chosen.antt =====
-- Which packages ForceUpgrader upgrades for which app.
use freedom_box.Base.{
  String, ◌≡◌, ◌∙◌, ap, refl, Bool, true, false, Bool-cases, inl, inr, ◌&&◌, ◌||◌, not, nat_eq,
  Option, none, some, List, [], ◌∷◌, ◌==◌, eq_iff, arith, if◌then◌else◌, keep_if, contains, any,
}
use freedom_box.Dict.{Dict, lookup, keys}
use freedom_box.Packages.Defs.{Packages, possible_packages}
use freedom_box.App.Lifecycle.Defs.{get_setup_state}
use freedom_box.Packages.Known.{or_old}
use freedom_box.Setup.Apps.{Entry, Service}
use freedom_box.Setup.Assigned.{contains-set_update, contains-add_app, lookup-assign, contains-keys}
use freedom_box.Setup.Managed.{
  set_update, has_method, apps_of, add_app, Managed, add_components, add_components_if, is_nil,
  list_managed, packages_of, assign, is_considered, managed_loop, filter_managed_packages,
  apps_to_force_upgrade,
}

-- The components that have the package, and the apps that do.
abbrev pub has_package : String → List Packages → Bool
has_package p = any (λ c. contains p (possible_packages c.packages))

contains-add_components :
    (p i id : String) (cs : List Packages) (m : Managed)
    → contains i (apps_of p (add_components id cs m).package_apps)
      ≡ (id == i && has_package p cs || contains i (apps_of p m.package_apps))
contains-add_components p i id [] m = ground arith
contains-add_components p i id (c ∷ cs) m = ground (
  arith,
  contains-add_components p i id cs (record {
    packages = set_update (possible_packages c.packages) m.packages;
    package_apps = add_app id (possible_packages c.packages) m.package_apps;
  }),
  contains-add_app p i id (possible_packages c.packages) m.package_apps,
)

packages-add_components :
    (p id : String) (cs : List Packages) (m : Managed)
    → contains p (add_components id cs m).packages ≡ (has_package p cs || contains p m.packages)
packages-add_components p id [] m = refl
packages-add_components p id (c ∷ cs) m = ground (
  arith,
  packages-add_components p id cs (record {
    packages = set_update (possible_packages c.packages) m.packages;
    package_apps = add_app id (possible_packages c.packages) m.package_apps;
  }),
  contains-set_update p (possible_packages c.packages) m.packages,
)

contains-add_components_if :
    (p i : String) (b : Bool) (id : String) (cs : List Packages) (m : Managed)
    → contains i (apps_of p (add_components_if b id cs m).package_apps)
      ≡ (b && (id == i && has_package p cs) || contains i (apps_of p m.package_apps))
contains-add_components_if p i true id cs m = contains-add_components p i id cs m
contains-add_components_if p i false id cs m = refl

packages-add_components_if :
    (p : String) (b : Bool) (id : String) (cs : List Packages) (m : Managed)
    → contains p (add_components_if b id cs m).packages
      ≡ (b && has_package p cs || contains p m.packages)
packages-add_components_if p true id cs m = packages-add_components p id cs m
packages-add_components_if p false id cs m = refl

module _ {S : Type 0} (service : Service S) where
  -- The app has `force_upgrade`, and a version of it was set up.
  abbrev pub has_upgrade : Entry S → S → Bool
  has_upgrade e s =
      has_method e.force_upgrade && not (nat_eq (service.setup_version e.app.app_id s) 0)

  has_upgrade_lem : (e : Entry S) (s : S) → is_considered service e s ≡ has_upgrade e s
  unfolding is_considered get_setup_state
  has_upgrade_lem e s = ground arith

  -- An app with this id that has `force_upgrade` and is set up has the package.
  abbrev pub upgrades : S → String → String → List (Entry S) → Bool
  upgrades s id p =
      any (λ e. has_upgrade e s && (e.app.app_id == id && has_package p e.package_components))

  contains-managed_loop :
      (s : S) (i p : String) (es : List (Entry S)) (m : Managed)
      → contains i (apps_of p (managed_loop service s es m).package_apps)
        ≡ (upgrades s i p es || contains i (apps_of p m.package_apps))
  contains-managed_loop s i p [] m = refl
  contains-managed_loop s i p (e ∷ es) m =
      let next =
        add_components_if (is_considered service e s) e.app.app_id e.package_components m in
      let ih = contains-managed_loop s i p es next in
      let one =
        contains-add_components_if p i (is_considered service e s) e.app.app_id e.package_components
          m in
      ground (arith, ih, one, has_upgrade_lem e s)

  -- Every package that an app has is in the set.
  packages-managed_loop :
      (s : S) (i p : String) (es : List (Entry S)) (m : Managed)
      → (upgrades s i p es || contains p m.packages) ≡ true
      → contains p (managed_loop service s es m).packages ≡ true
  packages-managed_loop s i p [] m h = h
  packages-managed_loop s i p (e ∷ es) m h =
      let next =
        add_components_if (is_considered service e s) e.app.app_id e.package_components m in
      let one =
        packages-add_components_if p (is_considered service e s) e.app.app_id e.package_components
          m in
      packages-managed_loop s i p es next (ground (arith, one, h, has_upgrade_lem e s))

contains-keep_if :
    (p : String) (f : String → Bool) (xs : List String)
    → contains p (keep_if f xs) ≡ (contains p xs && f p)
contains-keep_if p f [] = refl
contains-keep_if p f (x ∷ xs) =
    let ih = contains-keep_if p f xs in
    elim (Bool-cases (x == p)) [
      | inl same ↦ let e = ap f ((eq_iff x p).0 same) in ground (arith, same)
      | inr other ↦ ground (arith, other)
    ]

is_nil-contains : (p : String) (xs : List String) → is_nil xs ≡ true → contains p xs ≡ false
is_nil-contains p [] e = refl
is_nil-contains p (x ∷ xs) e = absurd (ground arith)

-- The two conditions of the source are one.
both :
    {S : Type 0} (service : Service S) (s : S) (names : List String) (id p : String)
    → (let m = filter_managed_packages service names s in
        contains id (apps_of p m.package_apps) && contains p m.packages)
      ≡ (contains p names && upgrades service s id p service.apps)
unfolding filter_managed_packages
both service s names id p =
    let start : Managed = record { packages = []; package_apps = [] } in
    let m = managed_loop service s service.apps start in
    let apps = contains-managed_loop service s id p service.apps start in
    let all = packages-managed_loop service s id p service.apps start in
    let kept = contains-keep_if p (λ x. contains x names) m.packages in
    ground (arith, apps, all, kept)

or_old-none : (o : Option String) → or_old o none ≡ o
or_old-none none = refl
or_old-none (some v) = refl

-- Two tests that agree on what is there
if-none :
    (a b c : Bool) (o : Option String)
    → (b ≡ false → o ≡ none)
    → (c ≡ false → o ≡ none)
    → (if a && b then o else none) ≡ (if a && c then o else none)
if-none a b c o f g = ground (arith, f, g)

list_managed_lem :
    {S : Type 0} (service : Service S) (s s' : S) (m : Managed)
    (conffiles : List String → Dict String)
    → ((ps : List String)
        → service.filter_conffile_prompt_packages ps s ≡ (some (conffiles ps), s'))
    → ((ps : List String) (p : String) → contains p ps ≡ false → lookup p (conffiles ps) ≡ none)
    → (apps : Dict (Dict String)) × ((list_managed service m s).0 ≡ some apps)
      × ((id p : String)
          → lookup p (packages_of id apps) ≡ (
              if contains id (apps_of p m.package_apps) && contains p m.packages
              then lookup p (conffiles m.packages)
              else none))
list_managed_lem service s s' m conffiles prompts asked = elim (Bool-cases (is_nil m.packages)) [
  | inl nothing ↦ (
    [],
    rw nothing refl,
    λ id p. let e = is_nil-contains p m.packages nothing in ground (arith, e),
  )
  | inr something ↦
      let files = conffiles m.packages in
      (
        assign files m.package_apps (keys files) [],
        rw (something, prompts m.packages) refl,
        λ id p.
            lookup-assign id p files m.package_apps (keys files) []
            ∙ rw (or_old-none (lookup p files)) (
                if-none (contains id (apps_of p m.package_apps)) (contains p (keys files))
                  (contains p m.packages) (lookup p files) (contains-keys p files)
                  (asked m.packages p)),
      )
]

if_asked :
    (a b : Bool) (o q : Option String)
    → o ≡ (if b then q else none)
    → (if a && b then o else none) ≡ (if a && b then q else none)
if_asked a b o q e = ground (arith, e)

-- When apt answers, and tells of each package that it is asked for, and of no other, which prompt for a
-- configuration file an upgrade of it needs: an app is to be upgraded by force for exactly the packages
-- of it that can be upgraded and need a prompt, with that prompt, where the app has `force_upgrade` and
-- a version of it was set up.
pub apps_to_force_upgrade_lem :
    {S : Type 0} (service : Service S) (s s1 s2 : S) (names : List String)
    (conffiles : List String → Dict String) (prompt : String → Option String)
    → service.upgradable_packages s ≡ (some names, s1)
    → ((ps : List String)
        → service.filter_conffile_prompt_packages ps s1 ≡ (some (conffiles ps), s2))
    → ((ps : List String) (p : String)
        → lookup p (conffiles ps) ≡ (if contains p ps then prompt p else none))
    → (apps : Dict (Dict String)) × ((apps_to_force_upgrade service s).0 ≡ some apps)
      × ((id p : String)
          → lookup p (packages_of id apps) ≡ (
              if contains p names && upgrades service s1 id p service.apps then prompt p else none))
unfolding apps_to_force_upgrade
apps_to_force_upgrade_lem service s s1 s2 names conffiles prompt listed prompts asked =
    elim (Bool-cases (is_nil names)) [
      | inl nothing ↦ (
        [],
        rw (listed, nothing) refl,
        λ id p. let e = is_nil-contains p names nothing in ground (arith, e),
      )
      | inr something ↦
          let m = filter_managed_packages service names s1 in
          let (apps, found, exact) =
            list_managed_lem service s1 s2 m conffiles prompts
              (λ ps p e. let law = asked ps p in ground (arith, e)) in
          (
            apps,
            rw (listed, something) found,
            λ id p.
                exact id p
                ∙ if_asked (contains id (apps_of p m.package_apps)) (contains p m.packages)
                    (lookup p (conffiles m.packages)) (prompt p) (asked m.packages p)
                ∙ ap (λ b. if b then prompt p else none) (both service s1 names id p),
          )
    ]
