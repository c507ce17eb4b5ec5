-- ===== src/Setup/Repaired.antt =====
-- What the operation of a repair says.
use freedom_box.Base.{
  String, ◌≡◌, ◌∙◌, refl, ap, Bool, true, false, Option, none, some, List, [], ◌∷◌, nat_eq, keep_if,
  arith,
}
use freedom_box.Operation.Defs.{AppInfo, report_on}
use freedom_box.App.Lifecycle.Defs.{DiagnosticCheck}
use freedom_box.Setup.Apps.{Methods, Service}
use freedom_box.Setup.Run.{
  Job, update, retrieve_error_messages, is_failed, setup_app, end_setup, run_setup_on_app,
  report_repair, after_repair, run_repair_on_app,
}

-- The exception of an operation after a setup that ended with this result
abbrev pub exception_after : Option (Unit {0}) → String → Option String → Option String
exception_after none raised old = some raised
exception_after (some tt) raised old = old

module _ {S : Type 0} (service : Service S) (app_info : String → AppInfo) where
  report_repair_lem :
      (es : List String) (job : Job S)
      → es ≡ []
      → ((report_repair service app_info es job).operation.message ≡ some "App repaired.")
        × ((report_repair service app_info es job).operation.exception ≡ job.operation.exception)
  unfolding update report_on
  report_repair_lem [] job e = (refl, refl)
  report_repair_lem (x ∷ es) job e = absurd (ground arith)

  end_setup-exception :
      (new : Bool) (r : Option (Unit {0}) × S) (job : Job S)
      → ((end_setup service app_info new true r job).system ≡ r.1)
        × ((end_setup service app_info new true r job).operation.exception
            ≡ exception_after r.0 (service.exception r.1) job.operation.exception)
  unfolding update report_on
  end_setup-exception new (none, s) job = (refl, refl)
  end_setup-exception true (some tt, s) job = (refl, refl)
  end_setup-exception false (some tt, s) job = (refl, refl)

  rerun_lem :
      (app : Methods S) (job : Job S) (s : S)
      → let result = setup_app service app_info app (service.setup_version app.app_id s) s in
        let job' = after_repair service app_info app (some true, s) job in
        (retrieve_error_messages (service.errors result.1)).0 ≡ []
        → (job'.operation.message ≡ some "App repaired.")
          × (job'.operation.exception
              ≡ exception_after result.0 (service.exception result.1) job.operation.exception)
  unfolding run_setup_on_app update report_on
  rerun_lem app job s quiet =
      let current = service.setup_version app.app_id s in
      let result = setup_app service app_info app current s in
      let told =
        update service app_info (some "Re-running setup to complete repairs") none
          (record job { system = s }) in
      let (system, exception) = end_setup-exception (nat_eq current 0) result told in
      let job2 = end_setup service app_info (nat_eq current 0) true result told in
      let r = retrieve_error_messages (service.errors job2.system) in
      let (message, same) =
        report_repair_lem r.0 (record job2 { system = service.set_errors r.1 job2.system })
          (ap (λ x. (retrieve_error_messages (service.errors x)).0) system ∙ quiet) in
      (message, same ∙ exception)

-- A repair that asks for the setup to run again, and after which no error is stored: the message of
-- its operation is "App repaired." also when that setup failed; the exception of the setup then stays
-- in the operation. When the setup succeeded, no exception is added.
pub run_repair_on_app_rerun :
    {S : Type 0} (service : Service S) (app_info : String → AppInfo) (app : Methods S) (job : Job S)
    (checks : List DiagnosticCheck) (check : DiagnosticCheck) (more : List DiagnosticCheck)
    (s1 s2 : S)
    → app.diagnose job.system ≡ (some checks, s1)
    → keep_if is_failed checks ≡ check ∷ more
    → app.repair (check ∷ more) s1 ≡ (some true, s2)
    → let result = setup_app service app_info app (service.setup_version app.app_id s2) s2 in
      let job' = run_repair_on_app service app_info app job in
      (retrieve_error_messages (service.errors result.1)).0 ≡ []
      → (job'.operation.message ≡ some "App repaired.")
        × (job'.operation.exception
            ≡ exception_after result.0 (service.exception result.1) job.operation.exception)
unfolding run_repair_on_app
run_repair_on_app_rerun service app_info app job checks check more s1 s2 diagnosed failed repaired
      quiet =
    rw (diagnosed, failed, repaired) (rerun_lem service app_info app job s2 quiet)
