-- ===== src/Diagnostics/Tests.antt =====
-- Two apps, of which one has a failed check and the other raises an exception.
use freedom_box.Base.{
  ℕ, suc, String, ◌≡◌, refl, true, false, ◌&&◌, Option, none, some, List, [], ◌∷◌, ◌==◌, length,
  nat_eq, if◌then◌else◌, contains,
}
use freedom_box.Dict.{Dict}
use freedom_box.Effect.{M, pure, raise, ◌>>◌, for_each}
use freedom_box.App.Lifecycle.Defs.{DiagnosticCheck, failed}
use freedom_box.Diagnostics.Defs.{
  Diagnosed, AppResult, Summary, Desk, take_apps, diagnose_loop, run_on_all_enabled_modules,
  summarize, no_issues, run_diagnostics, is_exception, is_issue, count_app, count_checks,
  count_issue, is_warning,
}
use freedom_box.Diagnostics.Expected.{HaveOwnIds, Taken, no_more, taken, outcomes, state_after}
use freedom_box.Diagnostics.Filled.{run_on_all_enabled_modules_lem}
use freedom_box.Diagnostics.Counted.{any_result, has_error, is_to_repair, total_issues}
use freedom_box.Diagnostics.Summary.{summarize_lem, run_diagnostics_lem}

abbrev web_check : DiagnosticCheck
web_check = record { check_id = "web"; description = "Web"; result = failed; component_id = none }

abbrev app_with : String → M ℕ (List DiagnosticCheck) → Diagnosed ℕ
app_with id diagnose = record {
  app_id = id;
  needs_setup = λ s. false;
  is_enabled = pure true;
  has_diagnostics = true;
  diagnose = diagnose;
}

abbrev all : List (Diagnosed ℕ)
all = app_with "web" (pure (web_check ∷ [])) ∷ app_with "chat" raise ∷ []

abbrev text : ℕ → String
text s = "error"

abbrev desk : Desk ℕ
desk = record {
  store_results = λ results. pure tt;
  delete_notification = pure tt;
  notify = λ count is_error. pure tt;
  is_automatic_repair_enabled = λ s. true;
  run_repair_on_app = λ id s. (some tt, suc s);
}

all-Taken : Taken all 0 all 0
all-Taken = taken refl refl refl (taken refl refl refl no_more)

all-HaveOwnIds : HaveOwnIds all
all-HaveOwnIds = (refl, (refl, tt))

run_on_all_enabled_modules_lem_example : run_on_all_enabled_modules text all 0 ≡ (
  some (record {
    results = outcomes text all 0;
    progress_percentage = if nat_eq (length all) 0 then 0 else 100;
  }),
  state_after text all 0,
)
run_on_all_enabled_modules_lem_example =
    run_on_all_enabled_modules_lem text all all 0 0 all-Taken all-HaveOwnIds

run_diagnostics_lem_example :
    let results = outcomes text all 0 in
    (repaired : List String) × ((k : String)
      → contains k repaired ≡ any_result (λ id r. id == k && is_to_repair r) results)
    × (run_diagnostics text desk all 0
        ≡ (desk.store_results results
              >> (if nat_eq (total_issues results) 0
                  then desk.delete_notification
                  else (desk.notify
                        (total_issues results)
                        (any_result (λ id r. has_error r) results)
                      >> λ u.
                          if desk.is_automatic_repair_enabled u
                          then for_each desk.run_repair_on_app repaired u
                          else (some tt, u))))
            (state_after text all 0))
run_diagnostics_lem_example = run_diagnostics_lem text desk all all 0 0 all-Taken all-HaveOwnIds

-- The failed check and the exception are two issues.
two_issues : total_issues (outcomes text all 0) ≡ 2
two_issues = refl

-- The app with the failed check is repaired.
one_repair : run_diagnostics text desk all 0 ≡ (some tt, 1)
unfolding run_diagnostics run_on_all_enabled_modules take_apps diagnose_loop summarize count_app
    is_exception count_checks is_issue count_issue is_warning
one_repair = refl

-- An exception with an empty text is no issue.
abbrev silent : Dict (Option AppResult)
silent = ("chat", some (record { diagnosis = []; exception = some ""; show_repair = false })) ∷ []

summarize_lem_example :
    (end : Summary) × (summarize silent no_issues ≡ some end)
    × (end.issue_count ≡ total_issues silent)
    × (end.is_error ≡ any_result (λ id r. has_error r) silent)
    × ((k : String)
        → contains k end.apps_with_issues ≡ any_result (λ id r. id == k && is_to_repair r) silent)
summarize_lem_example = summarize_lem silent tt
