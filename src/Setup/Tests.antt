-- ===== src/Setup/Tests.antt =====
-- A handler whose first attempt finds the package manager busy.
use freedom_box.Base.{
  ℕ, zero, suc, ◌<◌, String, ◌≡◌, ◌↔◌, refl, Bool, true, false, Option, some, List, [], ◌∷◌, arith,
}
use freedom_box.Setup.Dpkg.{
  Attempt, completed, done, gave_up, run_attempts, Cached, installed, AppPackages, any_of,
  post_invoke_reruns, app_needs_setup_rerun, attempt_post_invoke,
}
use freedom_box.Setup.Attempts.{retries, run_attempts-retries}
use freedom_box.Setup.Rerun.{FirstUpgraded, post_invoke_reruns_iff}

abbrev busy_for : ℕ → Option Bool × ℕ
busy_for zero = (some false, 0)
busy_for (suc n) = (some true, n)

abbrev attempt : ℕ → Attempt × ℕ
unfolding attempt_post_invoke
attempt = attempt_post_invoke busy_for (λ n. (completed, n)) false

abbrev wait : ℕ → Bool × ℕ
wait n = (false, n)

run_attempts-retries_example :
    ((k : ℕ)
      → k < 12
      → retries attempt wait k 2 ≡ some 0
      → (u : ℕ) → attempt 0 ≡ (completed, u)
      → run_attempts attempt wait 2 ≡ (done, u))
    × (retries attempt wait 12 2 ≡ some 0 → run_attempts attempt wait 2 ≡ (gave_up, 0))
run_attempts-retries_example = run_attempts-retries attempt wait 2 0

busy_twice : run_attempts attempt wait 2 ≡ (done, 0)
unfolding attempt attempt_post_invoke
busy_twice = (run_attempts-retries attempt wait 2 0).0 2 (omega arith) refl 0 refl

abbrev cache : String → Cached
cache p = installed "2"

abbrev shop : AppPackages
shop = record {
  rerun_setup_on_upgrade = false ∷ true ∷ [];
  needs_setup = false;
  packages = some ("php" ∷ "shop" ∷ []);
}

post_invoke_reruns_iff_example :
    (post_invoke_reruns cache (("php", "2") ∷ ("shop", "1") ∷ []) shop ≡ true) ↔ (
      (any_of shop.rerun_setup_on_upgrade ≡ true)
      × (shop.needs_setup ≡ false)
      × (ps : List String) × (shop.packages ≡ some ps)
      × FirstUpgraded cache (("php", "2") ∷ ("shop", "1") ∷ []) ps)
post_invoke_reruns_iff_example =
    post_invoke_reruns_iff cache (("php", "2") ∷ ("shop", "1") ∷ []) shop

shop_reruns : post_invoke_reruns cache (("php", "2") ∷ ("shop", "1") ∷ []) shop ≡ true
unfolding post_invoke_reruns app_needs_setup_rerun
shop_reruns = refl
