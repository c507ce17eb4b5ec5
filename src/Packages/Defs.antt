-- ===== src/Packages/Defs.antt =====
-- PackageExpression and Packages of plinth/package.py. The cache of apt, and what changes the system,
-- stand behind interfaces.
use freedom_box.Base.{
  String, Bool, true, false, ◌&&◌, not, Option, none, some, List, [], ◌∷◌, ◌++◌, if◌then◌else◌,
  keep_if,
}
use Prim.Native.String.{◌++◌ as str_append}
use freedom_box.Dict.{Dict, lookup}
use freedom_box.Effect.{M, pure, or_raise, ◌>>=◌, ◌>>◌}

-- A package in apt.Cache: the version that would be installed with whether it is, and the version that
-- is installed with the packages that its dependencies and recommendations name.
pub record CachePackage : Type 0 where
  pub candidate : Option (String × Bool)
  pub is_installed : Bool
  pub installed : Option (String × List String)

abbrev pub Cache : Type 0
Cache = Dict CachePackage

-- Package and PackageOr
pub data Expression : Type 0 where
  named : String → Expression
  either : Expression → Expression → Expression

-- possible
unfoldable pub possible : Expression → List String
possible (named n) = n ∷ []
possible (either a b) = possible a ++ possible b

abbrev pub has_candidate : Option CachePackage → Bool
has_candidate none = false
has_candidate (some p) = elim p.candidate [ none ↦ false | some c ↦ true ]

abbrev pub or_else : Option String → Option String → Option String
or_else none o = o
or_else (some n) o = some n

-- actual; `none` is MissingPackageError.
unfoldable pub actual : Cache → Expression → Option String
actual cache (named n) = if has_candidate (lookup n cache) then some n else none
actual cache (either a b) = or_else (actual cache a) (actual cache b)

-- __repr__: that of PackageOr takes the names of its packages, so `none` is AttributeError.
unfoldable pub repr : Expression → Option String
repr (named n) = some n
repr (either (named m) (named n)) = some (str_append m (str_append " | " n))
repr (either a b) = none

-- Packages.ConflictsAction, where `none` stands beside
pub data ConflictsAction : Type 0 where
  ignore remove : ConflictsAction

pub record Packages : Type 0 where
  pub packages : List Expression
  pub skip_recommends : Bool
  pub conflicts : List String
  pub conflicts_action : Option ConflictsAction
  pub rerun_setup_on_upgrade : Bool

-- Packages.possible_packages
unfoldable pub possible_packages : List Expression → List String
unfolding possible
possible_packages [] = []
possible_packages (e ∷ es) = possible e ++ possible_packages es

abbrev pub cons_both : Option String → Option (List String) → Option (List String)
cons_both (some n) (some l) = some (n ∷ l)
cons_both _ _ = none

-- Packages.get_actual_packages
unfoldable pub get_actual_packages : Cache → List Expression → Option (List String)
unfolding actual
get_actual_packages cache [] = some []
get_actual_packages cache (e ∷ es) = cons_both (actual cache e) (get_actual_packages cache es)

abbrev is_installed_in : Cache → String → Bool
is_installed_in cache n = elim (lookup n cache) [ none ↦ false | some p ↦ p.is_installed ]

-- packages_installed
unfoldable pub packages_installed : Cache → List String → List String
packages_installed cache candidates = keep_if (is_installed_in cache) candidates

-- What a component asks of the system.
pub record System (S : Type 0) : Type 0 where
  pub cache : S → Cache
  pub install : List String → Bool → M S (Unit {0})
  pub uninstall : List String → Bool → M S (Unit {0})
  pub refresh_package_lists : M S (Unit {0})
  -- the package cache exists, is less than an hour old, and no list of sources is newer
  pub is_cache_fresh : S → Bool

abbrev pub is_removing : Option ConflictsAction → Bool
is_removing (some remove) = true
is_removing _ = false

abbrev is_nil : List String → Bool
is_nil [] = true
is_nil (n ∷ ns) = false

abbrev is_some : Option (List String) → Bool
is_some none = false
is_some (some l) = true

module _ {S : Type 0} (system : System S) where
  open system use {cache, install, uninstall, refresh_package_lists, is_cache_fresh}

  abbrev pub remove_conflicts : Packages → List String → M S (Unit {0})
  remove_conflicts c found =
      if not (is_nil found) && is_removing c.conflicts_action
      then uninstall found false
      else pure tt

  -- Packages.setup
  unfoldable pub setup : Packages → M S (Unit {0})
  unfolding packages_installed get_actual_packages
  setup c = do
    found ← or_raise (λ s. some (packages_installed (cache s) c.conflicts))
    remove_conflicts c found
    wanted ← or_raise (λ s. get_actual_packages (cache s) c.packages)
    install wanted c.skip_recommends

  -- Packages.is_available
  abbrev pub available_now : Packages → S → Bool
  available_now c s = is_some (get_actual_packages (cache s) c.packages)

  abbrev pub available_after_refresh : Packages → M S Bool
  available_after_refresh c = do refresh_package_lists; or_raise (λ s. some (available_now c s))

  unfoldable pub is_available : Packages → M S Bool
  unfolding get_actual_packages
  is_available c s =
      if available_now c s
      then (some true, s)
      else if is_cache_fresh s
      then (some false, s)
      else available_after_refresh c s
