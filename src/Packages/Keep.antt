-- ===== src/Packages/Keep.antt =====
-- _filter_packages_to_keep of plinth/package.py. The set `keep_packages` is a list, of which the first
-- element is popped; the loop has fuel.
use freedom_box.Base.{
  ℕ, zero, suc, ◌+◌, String, Bool, not, Option, none, some, List, [], ◌∷◌, ◌++◌, if◌then◌else◌,
  keep_if, contains, length,
}
use freedom_box.Dict.{lookup}
use freedom_box.Packages.Defs.{Cache, CachePackage, Packages, possible_packages}

-- Another app: whether it needs setup, and its package components.
pub record OtherApp : Type 0 where
  pub needs_setup : Bool
  pub components : List Packages

abbrev pub dependencies_of : Option (String × List String) → List String
dependencies_of none = []
dependencies_of (some (version, names)) = names

-- The packages that are added for one package of the set.
abbrev pub added_for : Option CachePackage → List String
added_for none = []
added_for (some p) = if p.is_installed then dependencies_of p.installed else []

unfoldable pub dependencies : Cache → String → List String
dependencies cache n = added_for (lookup n cache)

-- The loop, where `done` is `keep_packages_with_deps`
unfoldable pub keep_loop : Cache → ℕ → List String → List String → Option (List String)
unfolding dependencies
keep_loop cache zero keep done = none
keep_loop cache (suc fuel) [] done = some done
keep_loop cache (suc fuel) (n ∷ keep) done =
    let processed = contains n done in
    keep_loop cache fuel (if processed then keep else dependencies cache n ++ keep)
      (if processed then done else n ∷ done)

abbrev pub component_packages : List Packages → List String
component_packages [] = []
component_packages (c ∷ cs) = possible_packages c.packages ++ component_packages cs

-- The packages that the other installed apps and the service itself need.
unfoldable pub keep_packages : List OtherApp → List String
unfolding possible_packages
keep_packages [] = "freedombox" ∷ []
keep_packages (app ∷ apps) =
    (if app.needs_setup then [] else component_packages app.components) ++ keep_packages apps

-- The number of packages that can be added for entries of the cache that were not processed.
abbrev pub cost : List String → Cache → ℕ
cost done [] = 0
cost done ((n, p) ∷ cache) =
    (if contains n done then 0 else length (added_for (some p))) + cost done cache

-- Fuel for the loop
abbrev pub enough : Cache → List String → ℕ
enough cache keep = suc (length keep + cost [] cache)

abbrev pub without : List String → Option (List String) → Option (List String)
without packages none = none
without packages (some kept) = some (keep_if (λ n. not (contains n kept)) packages)

-- _filter_packages_to_keep; the app itself is not among the other apps.
unfoldable pub filter_packages_to_keep : Cache → List OtherApp → List String → Option (List String)
unfolding keep_packages keep_loop
filter_packages_to_keep cache apps packages =
    let keep = keep_packages apps in without packages (keep_loop cache (enough cache keep) keep [])
