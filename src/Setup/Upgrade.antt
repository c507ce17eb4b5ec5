-- ===== src/Setup/Upgrade.antt =====
-- class ForceUpgrader of plinth/setup.py: an attempt to upgrade all apps, and one for a single app. The
-- operation of an upgrade, from OperationsManager.new to its end, is one call that can raise.
use freedom_box.Base.{
  ℕ, String, Bool, true, false, ◌||◌, Option, none, some, List, [], ◌∷◌, ◌==◌, if◌then◌else◌,
}
use freedom_box.Dict.{Dict, lookup}
use freedom_box.Effect.{M, pure, raise, ◌>>=◌}
use freedom_box.Setup.Apps.{Entry, Service}
use freedom_box.Setup.Managed.{apps_to_force_upgrade}
use freedom_box.Setup.Dpkg.{
  Attempt, completed, temporary_failure, permanent_failure, other_exception, End, attempts_loop,
}

-- ForceUpgrader.UPGRADE_ATTEMPTS
unfoldable pub upgrade_attempts : ℕ
upgrade_attempts = 12

abbrev pub has_raised : {A : Type 0} → Option A → Bool
has_raised none = true
has_raised (some a) = false

module _ {S : Type 0} (run_operation : String → Dict String → M S Bool) where
  -- The loop of _attempt_upgrade, where `need_retry` is its second argument
  unfoldable pub upgrade_loop : Dict (Dict String) → Bool → S → Bool × S
  upgrade_loop [] need_retry s = (need_retry, s)
  upgrade_loop ((id, packages) ∷ apps) need_retry s =
      let call = run_operation id packages s in
      upgrade_loop apps (has_raised call.0 || need_retry) call.1

  abbrev pub end_of_loop : Bool × S → Attempt × S
  end_of_loop (need_retry, s) = (if need_retry then temporary_failure else completed, s)

  abbrev pub upgrade_listed : Option (Dict (Dict String)) × S → Attempt × S
  upgrade_listed (none, s) = (other_exception, s)
  upgrade_listed (some apps, s) = end_of_loop (upgrade_loop apps false s)

  module _ (service : Service S) where
    abbrev pub upgrade_if_free : Option Bool × S → Attempt × S
    upgrade_if_free (none, s) = (other_exception, s)
    upgrade_if_free (some true, s) = (temporary_failure, s)
    upgrade_if_free (some false, s) = upgrade_listed (apps_to_force_upgrade service s)

    -- ForceUpgrader._attempt_upgrade
    unfoldable pub attempt_upgrade : S → Attempt × S
    unfolding upgrade_loop
    attempt_upgrade s =
        if service.is_shutting_down s
        then (permanent_failure, s)
        else upgrade_if_free (service.is_package_manager_busy s)

    -- ForceUpgrader._run_upgrade, where `wait` tells whether the service is shutting down
    unfoldable pub run_upgrade : (S → Bool × S) → S → End × S
    unfolding attempt_upgrade upgrade_attempts
    run_upgrade wait s = attempts_loop attempt_upgrade wait upgrade_attempts s

module _ {S : Type 0} (service : Service S) where
  abbrev pub call_method : Option (Dict String → M S Bool) → Dict String → M S Bool
  call_method none packages = raise
  call_method (some force_upgrade) packages = force_upgrade packages

  -- app.force_upgrade(packages), where App.get can raise KeyError
  abbrev pub force_upgrade_app : String → List (Entry S) → Dict String → M S Bool
  force_upgrade_app id [] packages = raise
  force_upgrade_app id (e ∷ es) packages =
      if e.app.app_id == id
      then call_method e.force_upgrade packages
      else force_upgrade_app id es packages

  abbrev pub upgrade_app : String → Option (Dict String) → M S Bool
  upgrade_app id none = pure false
  upgrade_app id (some packages) =
      force_upgrade_app id service.apps packages >>= λ done. if done then pure true else raise

  -- ForceUpgrader.attempt_upgrade_for_app
  unfoldable pub attempt_upgrade_for_app : String → M S Bool
  attempt_upgrade_for_app id s =
      if service.is_shutting_down s
      then (none, s)
      else (service.is_package_manager_busy >>= λ busy.
            if busy
            then raise
            else (apps_to_force_upgrade service >>= λ apps. upgrade_app id (lookup id apps)))
          s
