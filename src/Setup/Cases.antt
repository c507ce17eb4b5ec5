-- ===== src/Setup/Cases.antt =====
-- A system whose state is the stored version of its one app.
use freedom_box.Base.{
  ℕ, zero, suc, String, ◌≡◌, ◌⊎◌, inl, inr, refl, ap, eq_iff, Bool-cases, Bool, true, false, ◌&&◌,
  Option, none, some, List, [], ◌∷◌, ◌==◌, arith, if◌then◌else◌, contains, keep_if,
}
use freedom_box.Dict.{Dict, lookup}
use freedom_box.Effect.{M, pure, for_each}
use freedom_box.Operation.Defs.{Request, Operation, AppInfo, init, report_on}
use freedom_box.App.Lifecycle.Defs.{DiagnosticCheck, failed, get_setup_state}
use freedom_box.App.Lifecycle.Defs as App
use freedom_box.Packages.Defs.{named, possible_packages, possible}
use freedom_box.Setup.Apps.{Entry, Service, Methods, inherited}
use freedom_box.Setup.Managed.{
  packages_of, filter_managed_packages, apps_to_force_upgrade, is_considered, assign,
}
use freedom_box.Setup.Chosen.{upgrades, apps_to_force_upgrade_lem}
use freedom_box.Setup.Upgrade.{attempt_upgrade_for_app}
use freedom_box.Setup.Upgraded.{Upgraded, attempt_upgrade_for_app_lem}
use freedom_box.Setup.Run.{
  Job, update, run_setup_on_app, run_repair_on_app, setup_app, retrieve_error_messages,
}
use freedom_box.Setup.Outcomes.{
  IsStable, Succeeded, Failed, setup_message, error_message, run_setup_on_app_lem,
}
use freedom_box.Setup.Steps.{SetupRun}
use freedom_box.Setup.Repaired.{exception_after, run_repair_on_app_rerun}
use freedom_box.Setup.Start.{
  launch_setup, run_first_setup, run_setup_on_apps, setup_apps, setup_request, setup_attempt,
  is_setup_required, is_first_setup, run_regular_setup, run_setup_on_startup,
}
use freedom_box.Setup.Regular.{run_regular_setup_lem}
use freedom_box.Setup.Started.{Retried, start, again, run_setup_on_startup_lem}

abbrev shop : Entry ℕ
shop = record {
  app = record { app_id = "shop"; version = 2; overrides_diagnose = false; components = [] };
  is_essential = true;
  force_upgrade = some (λ packages. pure true);
  package_components =
      record {
        packages = named "shop" ∷ named "php" ∷ [];
        skip_recommends = false;
        conflicts = [];
        conflicts_action = none;
        rerun_setup_on_upgrade = true;
      }
      ∷ [];
}

abbrev prompts : List String → Dict String
prompts ps = if contains "php" ps then ("php", "php.ini") ∷ [] else []

abbrev service : Service ℕ
service = record {
  apps = shop ∷ [];
  setup_version = λ id s. s;
  set_setup_version = λ id v s. (some tt, v);
  post_setup = λ id s. s;
  refresh_package_lists = pure tt;
  is_package_manager_busy = pure false;
  upgradable_packages = pure ("php" ∷ "vim" ∷ []);
  filter_conffile_prompt_packages = λ ps. pure (prompts ps);
  is_shutting_down = λ s. false;
  errors = λ s. none;
  set_errors = λ errors s. s;
  exception = λ s. "error";
}

abbrev prompt : String → Option String
prompt p = if "php" == p then some "php.ini" else none

prompts_asked :
    (ps : List String) (p : String)
    → lookup p (prompts ps) ≡ (if contains p ps then prompt p else none)
prompts_asked ps p = elim (Bool-cases ("php" == p)) [
  | inl same ↦ let h = ap (λ x. contains x ps) ((eq_iff "php" p).0 same) in ground (arith, same)
  | inr other ↦ ground (arith, other)
]

apps_to_force_upgrade_lem_example :
    (apps : Dict (Dict String)) × ((apps_to_force_upgrade service 1).0 ≡ some apps)
    × ((id p : String)
        → lookup p (packages_of id apps) ≡ (
            if contains p ("php" ∷ "vim" ∷ []) && upgrades service 1 id p service.apps
            then prompt p
            else none))
apps_to_force_upgrade_lem_example =
    apps_to_force_upgrade_lem service 1 1 1 ("php" ∷ "vim" ∷ []) prompts prompt refl (λ ps. refl)
      prompts_asked

-- The app is to be upgraded for the one package with a prompt.
listed : (apps_to_force_upgrade service 1).0 ≡ some (("shop", ("php", "php.ini") ∷ []) ∷ [])
unfolding apps_to_force_upgrade filter_managed_packages is_considered assign get_setup_state
    possible_packages possible
listed = refl

attempt_upgrade_for_app_lem_example :
    (service.is_shutting_down 1 ≡ false)
    × ((service.is_package_manager_busy 1).0 ≡ some false)
    × (apps : Dict (Dict String)) × ((apps_to_force_upgrade service 1).0 ≡ some apps)
    × Upgraded service "shop" (lookup "shop" apps) (apps_to_force_upgrade service 1).1 true
unfolding attempt_upgrade_for_app apps_to_force_upgrade filter_managed_packages is_considered assign
    get_setup_state possible_packages possible
attempt_upgrade_for_app_lem_example = attempt_upgrade_for_app_lem service "shop" 1 true refl

abbrev app_info : String → AppInfo
app_info id = record { name = id; icon = none; icon_filename = none }

update_operation : Operation
unfolding init
update_operation = init (record {
  op_id = "shop-setup";
  app_id = "shop";
  name = "Updating app";
  show_message = true;
  show_notification = true;
})

abbrev job : Job ℕ
job = record { system = 1; operation = update_operation; notices = [] }

-- The same system when apt has nothing to upgrade.
abbrev quiet : Service ℕ
quiet = record service { upgradable_packages = pure [] }

abbrev methods : Methods ℕ
methods = inherited shop.app

quiet-IsStable : IsStable quiet app_info methods
unfolding attempt_upgrade_for_app apps_to_force_upgrade App.setup App.disable App.uninstall
quiet-IsStable = record {
  refresh = λ s. refl;
  upgrade = λ s. refl;
  setup = λ old_version s. refl;
  disable = λ s. refl;
  uninstall = λ s. refl;
  post = λ s. refl;
  set = λ v s. inl (refl, refl);
}

run_setup_on_app_lem_example :
    let job' = run_setup_on_app quiet app_info methods false job in
    (SetupRun quiet methods 1 (some tt) job'.system
      × Succeeded quiet app_info methods 2
          (setup_message quiet app_info methods false false job.operation.message)
          job
          job')
    ⊎ (SetupRun quiet methods 1 none job'.system
        × Failed quiet app_info methods (error_message false false) job job')
run_setup_on_app_lem_example = run_setup_on_app_lem quiet app_info methods quiet-IsStable false job

updated : (run_setup_on_app quiet app_info methods false job).system ≡ 2
unfolding run_setup_on_app attempt_upgrade_for_app apps_to_force_upgrade App.setup update
updated = refl

abbrev web_check : DiagnosticCheck
web_check = record { check_id = "web"; description = "Web"; result = failed; component_id = none }

-- An app whose repair asks for a setup, which then raises.
abbrev broken : Methods ℕ
broken = record methods {
  setup = λ old_version s. (none, s);
  diagnose = pure (web_check ∷ []);
  repair = λ checks. pure true;
}

run_repair_on_app_rerun_example :
    let job' = run_repair_on_app quiet app_info broken job in
    (job'.operation.message ≡ some "App repaired.")
    × (job'.operation.exception
        ≡ exception_after (setup_app quiet app_info broken 1 1).0 "error" job.operation.exception)
unfolding retrieve_error_messages
run_repair_on_app_rerun_example =
    run_repair_on_app_rerun quiet app_info broken job (web_check ∷ []) web_check [] 1 1 refl refl
      refl refl

-- Its operation has the exception of the setup, and tells that the app is repaired.
failed_setup_reads_repaired :
    let job' = run_repair_on_app quiet app_info broken job in
    (job'.operation.message ≡ some "App repaired.") × (job'.operation.exception ≡ some "error")
unfolding run_repair_on_app run_setup_on_app attempt_upgrade_for_app apps_to_force_upgrade update
    report_on retrieve_error_messages
failed_setup_reads_repaired = (refl, refl)

abbrev launch : Request → Bool → M ℕ (Unit {0})
launch request allow_install s = (some tt, 2)

run_regular_setup_lem_example :
    run_regular_setup service launch 1
    ≡ for_each
        (launch_setup service launch true)
        (keep_if (is_setup_required service launch 1) service.apps)
        1
run_regular_setup_lem_example = run_regular_setup_lem service launch 1 (refl, tt)

-- The first attempt raises, and the second succeeds.
abbrev launch_later : Request → Bool → M ℕ (Unit {0})
launch_later request allow_install zero = (none, 1)
launch_later request allow_install (suc n) = (some tt, 2)

one_failed :
    Retried service launch_later (λ b s. s) (λ s. s) (is_first_setup service launch_later 0) 1 0 1
unfolding is_first_setup run_first_setup run_setup_on_apps setup_apps launch_setup setup_request
    get_setup_state
one_failed = again {s = 0} refl refl start

run_setup_on_startup_lem_example :
    let first = is_first_setup service launch_later 0 in
    let last = setup_attempt service launch_later (λ b s. s) (λ s. s) first 1 in
    (last.0 ≡ some tt
      → run_setup_on_startup service launch_later (λ b s. s) (λ s. s) 2 0 ≡ some last.1)
    × (last.0 ≡ none
        → false ≡ true
        → run_setup_on_startup service launch_later (λ b s. s) (λ s. s) 2 0 ≡ some last.1)
run_setup_on_startup_lem_example =
    run_setup_on_startup_lem service launch_later (λ b s. s) (λ s. s) 1 0 1 one_failed
