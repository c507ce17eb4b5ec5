-- ===== src/Packages/Install.antt =====
-- install of plinth/package.py: its wait for the package manager, and the versions that are known. The
-- key-value store holds the dictionary of the known versions.
use freedom_box.Base.{
  ℕ, zero, suc, ◌+◌, String, Bool, true, false, Option, none, some, List, [], ◌∷◌, leb,
  if◌then◌else◌,
}
use freedom_box.Dict.{Dict, lookup, insert, remove}
use freedom_box.Packages.Defs.{Cache, CachePackage}

pub data Wait : Type 0 where
  free timeout : Wait

-- The loop that waits while the package manager is busy, at its `n`-th test, with the seconds that have
-- passed since the start.
module _ (busy : ℕ → Bool) (elapsed : ℕ → ℕ) where
  unfoldable pub wait_loop : ℕ → ℕ → Option Wait
  wait_loop zero n = none
  wait_loop (suc fuel) n =
      let rest = wait_loop fuel (n + 1) in
      if busy n then (if leb 86400 (elapsed n) then some timeout else rest) else some free

  -- With three seconds between the tests, a day ends before the 28801st is over.
  unfoldable pub wait_for_package_manager : Option Wait
  unfolding wait_loop
  wait_for_package_manager = wait_loop 28801 0

-- The test of install where it may not install: all packages are installed, where `none` is a KeyError
-- and false PackageNotInstalledError.
unfoldable pub are_all_installed : Cache → List String → Option Bool
are_all_installed cache [] = some true
are_all_installed cache (n ∷ ns) =
    let rest = are_all_installed cache ns in
    elim (lookup n cache) [ none ↦ none | some p ↦ if p.is_installed then rest else some false ]

-- The version of an installed package in apt's cache
abbrev pub version_of : Option CachePackage → Option String
version_of none = none
version_of (some p) = elim p.installed [ none ↦ none | some v ↦ some v.0 ]

abbrev pub mark_one : String → Option String → Dict String → Dict String
mark_one n none known = known
mark_one n (some v) known = insert n v known

-- mark_known
unfoldable pub mark_known : Cache → List String → Dict String → Dict String
mark_known cache [] known = known
mark_known cache (n ∷ ns) known =
    mark_known cache ns (mark_one n (version_of (lookup n cache)) known)

-- unmark_known
unfoldable pub unmark_known : List String → Dict String → Dict String
unmark_known [] known = known
unmark_known (n ∷ ns) known = unmark_known ns (remove n known)
