-- ===== src/Setup/Run.antt =====
-- plinth/setup.py: the setup, repair and uninstall of an app inside the thread of an operation.
use Prim.Native.String.{◌++◌ as str_append}
use freedom_box.Base.{
  ℕ, String, Bool, true, false, Option, none, some, List, [], ◌∷◌, nat_eq, keep_if, if◌then◌else◌,
}
use freedom_box.Dict.{Dict}
use freedom_box.Effect.{M, pure, ◌>>=◌, ◌>>◌}
use freedom_box.Operation.Defs.{Operation, AppInfo, Notice, report_on, update_notification}
use freedom_box.App.Lifecycle.Defs.{DiagnosticCheck, failed, warning}
use freedom_box.Setup.Apps.{Methods, Service}
use freedom_box.Setup.Upgrade.{attempt_upgrade_for_app}

-- store_error_message, where `none` is a thread whose storage has no list
unfoldable pub store_error_message : String → Option (List String) → Option (List String)
store_error_message e none = some (e ∷ [])
store_error_message e (some es) = some (append_one es)
  where
    append_one : List String → List String
    append_one [] = e ∷ []
    append_one (x ∷ xs) = x ∷ append_one xs

-- retrieve_error_messages
unfoldable pub retrieve_error_messages : Option (List String) → List String × Option (List String)
retrieve_error_messages none = ([], none)
retrieve_error_messages (some es) = (es, some [])

-- What the thread of an operation works on: the system, its operation, and the notifications.
pub record Job (S : Type 0) : Type 0 where
  pub system : S
  pub operation : Operation
  pub notices : Dict Notice

-- The errors, one in a line
abbrev pub error_lines : List String → String
error_lines [] = ""
error_lines (e ∷ es) = str_append e (str_append "\n" (error_lines es))

abbrev pub is_failed : DiagnosticCheck → Bool
is_failed check = elim check.result [ failed ↦ true | warning ↦ true | _ ↦ false ]

module _ {S : Type 0} (service : Service S) (app_info : String → AppInfo) where
  open service use {
    setup_version, set_setup_version, post_setup, refresh_package_lists, errors, set_errors,
    exception,
  }

  -- operation.on_update
  unfoldable pub update : Option String → Option String → Job S → Job S
  update message error job =
      let op = report_on message error job.operation in
      record job { operation = op; notices = update_notification app_info op job.notices }

  abbrev pub upgrade_first : ℕ → String → M S (Unit {0})
  upgrade_first current id =
      if nat_eq current 0
      then pure tt
      else (refresh_package_lists >> (attempt_upgrade_for_app service id >>= λ done. pure tt))

  -- The body of `try` in _run_setup_on_app
  abbrev pub setup_app : Methods S → ℕ → M S (Unit {0})
  setup_app app current =
      upgrade_first current app.app_id
      >> (app.setup current
          >> (set_setup_version app.app_id app.version >> λ s. (some tt, post_setup app.app_id s)))

  abbrev pub setup_error : Bool → Bool → String
  setup_error first for_repair =
      if first
      then "Error installing app: {exception}"
      else if for_repair
      then "Error repairing app: {exception}"
      else "Error updating app: {exception}"

  abbrev pub end_setup : Bool → Bool → Option (Unit {0}) × S → Job S → Job S
  end_setup first for_repair (none, s) job =
      update (some (setup_error first for_repair)) (some (exception s)) (record job { system = s })
  end_setup true for_repair (some tt, s) job =
      update (some "App installed.") none (record job { system = s })
  end_setup false true (some tt, s) job = record job { system = s }
  end_setup false false (some tt, s) job =
      update (some "App updated") none (record job { system = s })

  -- _run_setup_on_app; its argument `current_version` is not used.
  unfoldable pub run_setup_on_app : Methods S → Bool → Job S → Job S
  run_setup_on_app app for_repair job =
      let current = setup_version app.app_id job.system in
      end_setup (nat_eq current 0) for_repair (setup_app app current job.system) job

  abbrev pub end_uninstall : Option (Unit {0}) × S → Job S → Job S
  end_uninstall (none, s) job =
      update (some (str_append "Error uninstalling app: " (exception s))) (some (exception s))
        (record job { system = s })
  end_uninstall (some tt, s) job = update (some "App uninstalled.") none (record job { system = s })

  -- _run_uninstall_on_app
  unfoldable pub run_uninstall_on_app : Methods S → Job S → Job S
  run_uninstall_on_app app job =
      end_uninstall ((app.disable >> (app.uninstall >> set_setup_version app.app_id 0)) job.system)
        job

  abbrev pub report_repair : List String → Job S → Job S
  report_repair [] job = update (some "App repaired.") none job
  report_repair (e ∷ es) job =
      update (some (str_append "App repair completed with errors:\n" (error_lines (e ∷ es))))
        (some (error_lines (e ∷ es))) job

  -- The end of _run_repair_on_app
  abbrev pub finish_repair : Job S → Job S
  finish_repair job =
      let r = retrieve_error_messages (errors job.system) in
      report_repair r.0 (record job { system = set_errors r.1 job.system })

  abbrev pub after_repair : Methods S → Option Bool × S → Job S → Job S
  after_repair app (none, s) job =
      update (some (str_append "Error repairing app: " (exception s))) (some (exception s))
        (record job { system = s })
  after_repair app (some false, s) job = finish_repair (record job { system = s })
  after_repair app (some true, s) job = finish_repair (
      run_setup_on_app app true
        (update (some "Re-running setup to complete repairs") none (record job { system = s })))

  abbrev pub repair_failed : Methods S → List DiagnosticCheck → S → Job S → Job S
  repair_failed app [] s job =
      update (some "Skipping repair, no failed checks") none (record job { system = s })
  repair_failed app (check ∷ checks) s job = after_repair app (app.repair (check ∷ checks) s) job

  abbrev pub after_diagnose : Methods S → Option (List DiagnosticCheck) × S → Job S → Job S
  after_diagnose app (none, s) job =
      update (some (str_append "Error running diagnostics: " (exception s))) (some (exception s))
        (record job { system = s })
  after_diagnose app (some checks, s) job = repair_failed app (keep_if is_failed checks) s job

  -- _run_repair_on_app
  unfoldable pub run_repair_on_app : Methods S → Job S → Job S
  unfolding run_setup_on_app
  run_repair_on_app app job = after_diagnose app (app.diagnose job.system) job
