-- ===== src/Packages/Required.antt =====
-- The packages that other installed apps and the service require, and the set from which
-- _filter_packages_to_keep starts.
use freedom_box.Base.{
  String, ◌≡◌, refl, sym, Bool, true, Bool-cases, inl, inr, ◌&&◌, ◌||◌, not, any, Option,
  Option-cases, none, some, List, [], ◌∷◌, ◌==◌, eq_iff, eq_refl, arith, contains, contains-append,
}
use freedom_box.Dict.{lookup}
use freedom_box.Packages.Defs.{Cache, CachePackage, Packages, possible_packages}
use freedom_box.Packages.Keep.{dependencies, keep_packages, OtherApp, added_for, component_packages}

-- The package is to be kept: it is in the list, or an installed package that is to be kept depends on
-- it or recommends it.
pub data IsNeeded (cache : Cache) (keep : List String) : String → Type 0 where
  wanted : {n : String} → contains n keep ≡ true → IsNeeded cache keep n
  dependency :
      {m n : String}
      → IsNeeded cache keep m
      → contains n (dependencies cache m) ≡ true
      → IsNeeded cache keep n

contains-component_packages :
    (n : String) (cs : List Packages)
    → contains n (component_packages cs) ≡ any (λ c. contains n (possible_packages c.packages)) cs
contains-component_packages n [] = refl
contains-component_packages n (c ∷ cs) = ground (
  arith,
  contains-append n (possible_packages c.packages) (component_packages cs),
  contains-component_packages n cs,
)

-- An app that does not need setup has a component with the package.
abbrev pub uses : String → List OtherApp → Bool
uses n = any (λ app.
    not app.needs_setup && any (λ c. contains n (possible_packages c.packages)) app.components)

contains-keep_packages :
    (n : String) (apps : List OtherApp)
    → contains n (keep_packages apps) ≡ (uses n apps || "freedombox" == n)
unfolding keep_packages
contains-keep_packages n [] = ground arith
contains-keep_packages n (app ∷ apps) = ground (
  arith,
  contains-append n (component_packages app.components) (keep_packages apps),
  contains-component_packages n app.components,
  contains-keep_packages n apps,
)

-- A package is required: it is the service's, a component of another app that does not need setup has
-- it, or a required package that is installed depends on it or recommends it in its installed version.
pub data IsRequired (cache : Cache) (apps : List OtherApp) : String → Type 0 where
  of_service : IsRequired cache apps "freedombox"
  of_app : {n : String} → uses n apps ≡ true → IsRequired cache apps n
  of_package :
      {m n version : String} {p : CachePackage} {names : List String}
      → IsRequired cache apps m
      → lookup m cache ≡ some p
      → p.is_installed ≡ true
      → p.installed ≡ some (version, names)
      → contains n names ≡ true
      → IsRequired cache apps n

-- A package that is added for another one is a dependency of its installed version.
added_for_lem :
    (n : String) (o : Option CachePackage)
    → contains n (added_for o) ≡ true
    → (p : CachePackage) × (version : String) × (names : List String) × (o ≡ some p)
      × (p.is_installed ≡ true)
      × (p.installed ≡ some (version, names))
      × (contains n names ≡ true)
added_for_lem n none e = absurd (ground arith)
added_for_lem n (some p) e = elim (Bool-cases p.is_installed) [
  | inl here ↦ elim (Option-cases p.installed) [
    | inl nothing ↦ absurd (ground arith)
    | inr ((version, names), installed) ↦ (p, version, names, refl, here, installed, ground arith)
  ]
  | inr gone ↦ absurd (ground arith)
]

module _ (cache : Cache) (apps : List OtherApp) where
  pub IsNeeded-IsRequired :
      (n : String) → IsNeeded cache (keep_packages apps) n → IsRequired cache apps n
  unfolding dependencies
  IsNeeded-IsRequired n (wanted e) = elim (Bool-cases (uses n apps)) [
    | inl used ↦ of_app used
    | inr other ↦
        let own : "freedombox" == n ≡ true =
          ground (arith, contains-keep_packages n apps, e, other) in
        rw (sym ((eq_iff "freedombox" n).0 own)) of_service
  ]
  IsNeeded-IsRequired n (dependency {m} needed e) =
      let (p, version, names, found, here, installed, there) = added_for_lem n (lookup m cache) e in
      of_package (IsNeeded-IsRequired m needed) found here installed there

  pub IsRequired-IsNeeded :
      (n : String) → IsRequired cache apps n → IsNeeded cache (keep_packages apps) n
  unfolding dependencies
  IsRequired-IsNeeded _ of_service =
      wanted (ground (arith, contains-keep_packages "freedombox" apps, eq_refl "freedombox"))
  IsRequired-IsNeeded n (of_app e) = wanted (ground (arith, contains-keep_packages n apps, e))
  IsRequired-IsNeeded n (of_package {m} needed found here installed e) =
      dependency (IsRequired-IsNeeded m needed) (rw (found, here, installed) e)
