-- ===== src/Setup/Uninstalled.antt =====
-- What the uninstall of an app leaves in the database and in its operation.
use Prim.Native.String.{◌++◌ as str_append}
use freedom_box.Base.{◌≡◌, refl, inl, inr, ◌⊎◌, Option, none, some, arith, String}
use freedom_box.Effect.{◌>>◌}
use freedom_box.Operation.Defs.{AppInfo, report_on}
use freedom_box.Setup.Apps.{Methods, Service}
use freedom_box.Setup.Run.{Job, update, end_uninstall, run_uninstall_on_app}
use freedom_box.Setup.Versions.{error_text, Sets, Sets-after}
use freedom_box.Setup.Outcomes.{IsStable, Succeeded, Failed}

module _ {S : Type 0} (service : Service S) (app_info : String → AppInfo) (app : Methods S) where
  open service use {setup_version, set_setup_version, exception}

  module _ (stable : IsStable service app_info app) where
    uninstall-Sets :
        Sets
          (setup_version app.app_id)
          0
          (app.disable >> (app.uninstall >> set_setup_version app.app_id 0))
    uninstall-Sets =
        let v = setup_version app.app_id in
        let set = set_setup_version app.app_id 0 in
        Sets-after v 0 app.disable (app.uninstall >> set) stable.disable
          (Sets-after v 0 app.uninstall set stable.uninstall (stable.set 0))

  end_uninstall-Succeeded :
      (s : S) (job : Job S)
      → setup_version app.app_id s ≡ 0
      → Succeeded service app_info app 0
          (some "App uninstalled.")
          job
          (end_uninstall service app_info (some tt, s) job)
  unfolding update report_on Succeeded
  end_uninstall-Succeeded s job e = (e, refl, refl)

  end_uninstall-Failed :
      (s : S) (job : Job S)
      → setup_version app.app_id s ≡ setup_version app.app_id job.system
      → Failed service app_info app
          (str_append "Error uninstalling app: " (exception s))
          job
          (end_uninstall service app_info (none, s) job)
  unfolding update report_on Failed
  end_uninstall-Failed s job e = (e, refl, rw (error_text (exception s)) refl)

  uninstall_outcome :
      (r : Option (Unit {0}) × S) (job : Job S)
      → ((r.0 ≡ some tt) × (setup_version app.app_id r.1 ≡ 0))
        ⊎ ((r.0 ≡ none) × (setup_version app.app_id r.1 ≡ setup_version app.app_id job.system))
      → ((r.0 ≡ some tt)
          × Succeeded service app_info app 0
              (some "App uninstalled.")
              job
              (end_uninstall service app_info r job))
        ⊎ ((r.0 ≡ none)
            × Failed service app_info app
                (str_append "Error uninstalling app: " (exception r.1))
                job
                (end_uninstall service app_info r job))
  uninstall_outcome (some tt, s) job (inl (returned, set)) =
      inl (returned, end_uninstall-Succeeded s job set)
  uninstall_outcome (none, s) job (inr (raised, same)) =
      inr (raised, end_uninstall-Failed s job same)
  uninstall_outcome (none, s) job (inl (returned, set)) = absurd (ground arith)
  uninstall_outcome (some tt, s) job (inr (raised, same)) = absurd (ground arith)

-- Uninstalling an app in an operation, for an app whose calls leave its version in the database alone:
-- when disabling it, uninstalling it and the storing of the version return, the database has the
-- version 0, which stands for no installation, and the operation says so. When one of them raises, the
-- database has the version that it had, and the operation has the exception and a message with its
-- text.
pub run_uninstall_on_app_lem :
    {S : Type 0} (service : Service S) (app_info : String → AppInfo) (app : Methods S)
    → IsStable service app_info app
    → (job : Job S)
    → let call =
        (app.disable >> (app.uninstall >> service.set_setup_version app.app_id 0)) job.system in
      let job' = run_uninstall_on_app service app_info app job in
      ((call.0 ≡ some tt) × Succeeded service app_info app 0 (some "App uninstalled.") job job')
      ⊎ ((call.0 ≡ none)
          × Failed service app_info app
              (str_append "Error uninstalling app: " (service.exception call.1))
              job
              job')
unfolding run_uninstall_on_app
run_uninstall_on_app_lem service app_info app stable job =
    uninstall_outcome service app_info app
      ((app.disable >> (app.uninstall >> service.set_setup_version app.app_id 0)) job.system) job
      (uninstall-Sets service app_info app stable job.system)
