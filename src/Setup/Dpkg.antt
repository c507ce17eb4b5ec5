-- ===== src/Setup/Dpkg.antt =====
-- class DpkgHandler of plinth/setup.py. The attempts, the wait and the apt cache are arguments.
use freedom_box.Base.{
  ℕ, zero, suc, String, Bool, true, false, ◌&&◌, ◌||◌, not, Option, none, some, List, [], ◌∷◌, ◌==◌,
  if◌then◌else◌,
}
use freedom_box.Dict.{Dict, lookup}

-- How one attempt ends: it completes, or raises TemporaryFailure, PermanentFailure or another
-- exception.
pub data Attempt : Type 0 where
  completed temporary_failure permanent_failure other_exception : Attempt

-- How the loop ends.
pub data End : Type 0 where
  done failed stopped gave_up : End

-- DpkgHandler.HANDLE_ATTEMPTS
unfoldable pub handle_attempts : ℕ
handle_attempts = 12

module _ {R : Type 0} (attempt : R → Attempt × R) (wait : R → Bool × R) where
  -- After a failed attempt: the wait, which tells whether the handler is to shut down.
  abbrev pub after_wait : (R → End × R) → Bool × R → End × R
  after_wait go (true, r) = (stopped, r)
  after_wait go (false, r) = go r

  abbrev pub after_attempt : (R → End × R) → Attempt × R → End × R
  after_attempt go (completed, r) = (done, r)
  after_attempt go (permanent_failure, r) = (failed, r)
  after_attempt go (temporary_failure, r) = after_wait go (wait r)
  after_attempt go (other_exception, r) = after_wait go (wait r)

  -- The loop of DpkgHandler._on_dpkg_invoked
  unfoldable pub attempts_loop : ℕ → R → End × R
  attempts_loop zero r = (gave_up, r)
  attempts_loop (suc n) r = after_attempt (attempts_loop n) (attempt r)

  -- DpkgHandler._on_dpkg_invoked
  unfoldable pub run_attempts : R → End × R
  unfolding attempts_loop handle_attempts
  run_attempts r = attempts_loop handle_attempts r

-- What the apt cache says of a package: it is not known (KeyError), it is not installed, or its
-- installed version.
pub data Cached : Type 0 where
  unknown not_installed : Cached
  installed : String → Cached

abbrev pub is_known : Option String → String → Bool
is_known none version = false
is_known (some known) version = version == known

-- One round of the loop of _app_needs_setup_rerun, for what the cache says, the version that
-- package.get_known() has, and the rest of the loop
abbrev pub check_package : Cached → Option String → Bool → Bool
check_package unknown known rest = false
check_package not_installed known rest = false
check_package (installed version) known rest = if is_known known version then rest else true

-- DpkgHandler._app_needs_setup_rerun
unfoldable pub app_needs_setup_rerun : (String → Cached) → Dict String → List String → Bool
app_needs_setup_rerun cache known [] = false
app_needs_setup_rerun cache known (p ∷ ps) =
    check_package (cache p) (lookup p known) (app_needs_setup_rerun cache known ps)

-- An app as DpkgHandler sees it: `rerun_setup_on_upgrade` of its package components, whether it needs
-- setup, and its packages, or `none` for MissingPackageError.
pub record AppPackages : Type 0 where
  pub rerun_setup_on_upgrade : List Bool
  pub needs_setup : Bool
  pub packages : Option (List String)

abbrev pub any_of : List Bool → Bool
any_of [] = false
any_of (b ∷ bs) = b || any_of bs

abbrev pub rerun_for : (String → Cached) → Dict String → Option (List String) → Bool
rerun_for cache known none = false
rerun_for cache known (some packages) = app_needs_setup_rerun cache known packages

-- Whether DpkgHandler._post_invoke_on_app runs setup again.
unfoldable pub post_invoke_reruns : (String → Cached) → Dict String → AppPackages → Bool
post_invoke_reruns cache known app =
    any_of app.rerun_setup_on_upgrade && (not app.needs_setup && rerun_for cache known app.packages)

module _ {R : Type 0} (is_busy : R → Option Bool × R) (post_invoke : R → Attempt × R) where
  abbrev pub attempt_if_free : Option Bool × R → Attempt × R
  attempt_if_free (none, r) = (other_exception, r)
  attempt_if_free (some true, r) = (temporary_failure, r)
  attempt_if_free (some false, r) = post_invoke r

  -- DpkgHandler._attempt_post_invoke, where `post_invoke` is the loop over the apps
  unfoldable pub attempt_post_invoke : Bool → R → Attempt × R
  attempt_post_invoke true r = (permanent_failure, r)
  attempt_post_invoke false r = attempt_if_free (is_busy r)
