-- ===== src/Packages/Tests.antt =====
-- A cache with a package that is installed, and its dependency.
use freedom_box.Base.{
  ℕ, String, ◌≡◌, ◌↔◌, ◌⊎◌, ◌*◌, ◌≤◌, ◌<◌, refl, Bool, true, false, none, some, List, [], ◌∷◌,
  arith, contains, leb,
}
use freedom_box.Setup.Dpkg.{app_needs_setup_rerun}
use freedom_box.Packages.Defs.{
  Cache, CachePackage, named, either, possible, possible_packages, actual, get_actual_packages,
}
use freedom_box.Packages.Keep.{
  OtherApp, keep_packages, keep_loop, dependencies, filter_packages_to_keep,
}
use freedom_box.Packages.Required.{IsRequired}
use freedom_box.Packages.Closure.{filter_packages_to_keep_lem}
use freedom_box.Packages.Install.{free, timeout, wait_for_package_manager, mark_known}
use freedom_box.Packages.Bounds.{wait_for_package_manager_lem}
use freedom_box.Packages.Known.{cached, app_needs_setup_rerun-mark_known}

abbrev package_with : List String → CachePackage
package_with names = record {
  candidate = some ("2.0", true);
  is_installed = true;
  installed = some ("2.0", names);
}

abbrev cache : Cache
cache = ("ejabberd", package_with ("erlang" ∷ [])) ∷ ("erlang", package_with []) ∷ []

abbrev chat_app : OtherApp
chat_app = record {
  needs_setup = false;
  components =
      record {
        packages = named "ejabberd" ∷ [];
        skip_recommends = false;
        conflicts = [];
        conflicts_action = none;
        rerun_setup_on_upgrade = false;
      }
      ∷ [];
}

filter_packages_to_keep_lem_example :
    (l : List String) × (filter_packages_to_keep cache (chat_app ∷ []) ("erlang" ∷ "quassel" ∷ [])
      ≡ some l)
    × ((x : String)
        → (contains x l ≡ true) ↔ (
            (contains x ("erlang" ∷ "quassel" ∷ []) ≡ true) × ¬ IsRequired cache (chat_app ∷ []) x))
filter_packages_to_keep_lem_example =
    filter_packages_to_keep_lem cache (chat_app ∷ []) ("erlang" ∷ "quassel" ∷ [])

-- The dependency of the chat server is kept.
kept :
    filter_packages_to_keep cache (chat_app ∷ []) ("erlang" ∷ "quassel" ∷ [])
    ≡ some ("quassel" ∷ [])
unfolding filter_packages_to_keep keep_packages keep_loop dependencies possible_packages possible
kept = refl

abbrev busy_until : ℕ → Bool
busy_until n = leb n 4

abbrev three_each : ℕ → ℕ
three_each n = 3 * n

wait_for_package_manager_lem_example :
    (n : ℕ) × (n ≤ 28800)
    × ((k : ℕ) → k < n → (busy_until k ≡ true) × (three_each k < 86400))
    × (((wait_for_package_manager busy_until three_each ≡ some free) × (busy_until n ≡ false))
        ⊎ ((wait_for_package_manager busy_until three_each ≡ some timeout)
            × (busy_until n ≡ true)
            × (86400 ≤ three_each n)))
wait_for_package_manager_lem_example =
    wait_for_package_manager_lem busy_until three_each (λ n. omega arith)

app_needs_setup_rerun-mark_known_example :
    app_needs_setup_rerun
      (cached cache)
      (mark_known cache ("ejabberd" ∷ "erlang" ∷ []) (("erlang", "1.0") ∷ []))
      ("erlang" ∷ [])
    ≡ false
app_needs_setup_rerun-mark_known_example =
    app_needs_setup_rerun-mark_known cache ("ejabberd" ∷ "erlang" ∷ []) (("erlang", "1.0") ∷ [])
      ("erlang" ∷ []) refl

chosen :
    get_actual_packages cache (either (named "prosody") (named "ejabberd") ∷ [])
    ≡ some ("ejabberd" ∷ [])
unfolding get_actual_packages actual
chosen = refl
