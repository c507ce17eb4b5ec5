-- ===== src/Packages/Expressions.antt =====
-- Which packages are installed for package expressions.
use freedom_box.Base.{
  String, ◌≡◌, refl, Option, none, some, List, [], ◌∷◌, ◌++◌, if◌then◌else◌, arith,
}
use freedom_box.Dict.{lookup}
use freedom_box.Packages.Defs.{
  Cache, Expression, named, either, possible, actual, get_actual_packages, has_candidate, or_else,
  cons_both,
}

-- The first of the names that the cache can install.
abbrev pub first_available : Cache → List String → Option String
first_available cache [] = none
first_available cache (n ∷ ns) =
    if has_candidate (lookup n cache) then some n else first_available cache ns

first_available-append :
    (cache : Cache) (ns ms : List String)
    → first_available cache (ns ++ ms)
      ≡ or_else (first_available cache ns) (first_available cache ms)
first_available-append cache [] ms = refl
first_available-append cache (n ∷ ns) ms =
    let ih = first_available-append cache ns ms in ground arith

actual-possible :
    (cache : Cache) (e : Expression) → actual cache e ≡ first_available cache (possible e)
unfolding actual possible
actual-possible cache (named n) = refl
actual-possible cache (either a b) =
    rw
      (
        actual-possible cache a,
        actual-possible cache b,
        first_available-append cache (possible a) (possible b),
      )
      refl

-- The first available name of each of the lists, or `none` when a list has none.
abbrev pub first_of_each : Cache → List Expression → Option (List String)
first_of_each cache [] = some []
first_of_each cache (e ∷ es) =
    cons_both (first_available cache (possible e)) (first_of_each cache es)

-- The packages to install are, for each expression in order, the first of its possible packages that
-- has a version to install; when an expression has no such package, it is MissingPackageError.
pub get_actual_packages_lem :
    (cache : Cache) (es : List Expression) → get_actual_packages cache es ≡ first_of_each cache es
unfolding get_actual_packages
get_actual_packages_lem cache [] = refl
get_actual_packages_lem cache (e ∷ es) =
    rw (actual-possible cache e, get_actual_packages_lem cache es) refl
