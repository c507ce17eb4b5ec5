-- ===== src/Packages/Known.antt =====
-- What install marks as known does not make the setup run again.
use freedom_box.Base.{
  String, ◌≡◌, refl, ap, ◌∙◌, subst, Bool, true, false, Bool-cases, inl, inr, Option, none, some,
  List, [], ◌∷◌, ◌==◌, eq_iff, eq_refl, arith, if◌then◌else◌, contains, all,
}
use freedom_box.Dict.{Dict, lookup}
use freedom_box.Dict.Laws.{lookup-insert}
use freedom_box.Packages.Defs.{Cache, CachePackage}
use freedom_box.Packages.Install.{version_of, mark_one, mark_known}
use freedom_box.Setup.Dpkg.{
  Cached, unknown, not_installed, installed, check_package, app_needs_setup_rerun,
}

-- What DpkgHandler reads of the cache.
abbrev pub read : Option CachePackage → Cached
read none = unknown
read (some p) = elim p.installed [ none ↦ not_installed | some v ↦ installed v.0 ]

abbrev pub cached : Cache → String → Cached
cached cache n = read (lookup n cache)

abbrev pub or_old : Option String → Option String → Option String
or_old none old = old
or_old (some v) old = some v

lookup-mark_one :
    (n m : String) (o : Option String) (known : Dict String)
    → lookup n (mark_one m o known) ≡ (if m == n then or_old o (lookup n known) else lookup n known)
lookup-mark_one n m none known = ground arith
lookup-mark_one n m (some v) known = lookup-insert m n v known

pub keep_version :
    (b : Bool) (v old mid : Option String)
    → mid ≡ or_old v old
    → (if b then or_old v mid else mid) ≡ or_old v old
keep_version true none old mid e = e
keep_version true (some x) old mid e = refl
keep_version false v old mid e = e

-- The version that is known after marking: the installed one of a marked package, or else the old one.
pub lookup-mark_known :
    (cache : Cache) (ns : List String) (known : Dict String) (n : String)
    → lookup n (mark_known cache ns known) ≡ (
        if contains n ns
        then or_old (version_of (lookup n cache)) (lookup n known)
        else lookup n known)
unfolding mark_known
lookup-mark_known cache [] known n = refl
lookup-mark_known cache (m ∷ ns) known n =
    let rest = mark_one m (version_of (lookup m cache)) known in
    let ih = lookup-mark_known cache ns rest n in
    let one = lookup-mark_one n m (version_of (lookup m cache)) known in
    elim (Bool-cases (m == n)) [
      | inl same ↦
          let e : version_of (lookup m cache) ≡ version_of (lookup n cache) =
            ap (λ x. version_of (lookup x cache)) ((eq_iff m n).0 same) in
          let mid : lookup n rest ≡ or_old (version_of (lookup n cache)) (lookup n known) =
            subst (λ v. lookup n rest ≡ or_old v (lookup n known)) e (one ∙ (rw same refl)) in
          rw (ih, same)
            (keep_version (contains n ns) (version_of (lookup n cache)) (lookup n known)
              (lookup n rest) mid)
      | inr other ↦ rw (ih, one, other) refl
    ]

-- What the handler reads as installed is the version of the package.
check_package_marked :
    (o : Option CachePackage) (known : Option String) (rest : Bool)
    → rest ≡ false
    → check_package (read o) (or_old (version_of o) known) rest ≡ false
check_package_marked none known rest e = refl
check_package_marked (some p) known rest e =
    elim p.installed
      as (λ i.
        check_package (elim i [ none ↦ not_installed | some v ↦ installed v.0 ])
          (or_old (elim i [ none ↦ none | some v ↦ some v.0 ]) known) rest
        ≡ false) [ none ↦ refl | some v ↦ rw (eq_refl v.0) e ]

-- When install has marked packages as known, DpkgHandler finds nothing to run setup again for, as long
-- as the apt cache stays the same: for an app whose packages are among the marked ones, whatever was
-- known before, _app_needs_setup_rerun is false.
pub app_needs_setup_rerun-mark_known :
    (cache : Cache) (marked : List String) (known : Dict String) (ns : List String)
    → all (λ n. contains n marked) ns ≡ true
    → app_needs_setup_rerun (cached cache) (mark_known cache marked known) ns ≡ false
unfolding app_needs_setup_rerun
app_needs_setup_rerun-mark_known cache marked known [] among = refl
app_needs_setup_rerun-mark_known cache marked known (n ∷ ns) among =
    let h : (contains n marked ≡ true) × (all (λ x. contains x marked) ns ≡ true) =
      (ground arith, ground arith) in
    rw (lookup-mark_known cache marked known n, h.0)
      (check_package_marked (lookup n cache) (lookup n known)
        (app_needs_setup_rerun (cached cache) (mark_known cache marked known) ns)
        (app_needs_setup_rerun-mark_known cache marked known ns h.1))
