-- ===== src/Diagnostics/Defs.antt =====
-- plinth/modules/diagnostics/__init__.py. The results are returned with the progress, which the source
-- keeps in `current_results`; the database, notifications and the repair of an app are an interface.
use freedom_box.Base.{
  ℕ, ◌+◌, ◌*◌, ◌/◌, String, Bool, true, false, ◌&&◌, not, Option, none, some, List, [], ◌∷◌, ◌++◌,
  ◌==◌, any, length, contains, nat_eq, if◌then◌else◌,
}
use freedom_box.Dict.{Dict, insert}
use freedom_box.Effect.{M, pure, raise, for_each, ◌>>=◌, ◌>>◌}
use freedom_box.App.Lifecycle.Defs.{DiagnosticCheck, passed, skipped, not_done, warning, failed}

-- What is asked of an app
pub record Diagnosed (S : Type 0) : Type 0 where
  pub app_id : String
  pub needs_setup : S → Bool
  pub is_enabled : M S Bool
  pub has_diagnostics : Bool
  pub diagnose : M S (List DiagnosticCheck)

-- `app_results`
pub record AppResult : Type 0 where
  pub diagnosis : List DiagnosticCheck
  pub exception : Option String
  pub show_repair : Bool

-- `current_results`, where an app that has only its id stands with `none`
pub record Results : Type 0 where
  pub results : Dict (Option AppResult)
  pub progress_percentage : ℕ

abbrev pub needs_repair : DiagnosticCheck → Bool
needs_repair check = elim check.result [ failed ↦ true | warning ↦ true | _ ↦ false ]

module _ {S : Type 0} where
  -- Whether the first loop takes an app
  abbrev pub is_taken : Diagnosed S → M S Bool
  is_taken app s =
      if app.needs_setup s
      then (some false, s)
      else (app.is_enabled >>= λ enabled. pure (enabled && app.has_diagnostics)) s

  -- The first loop of _run_on_all_enabled_modules
  unfoldable pub take_apps : List (Diagnosed S) → M S (List (Diagnosed S))
  take_apps [] = pure []
  take_apps (app ∷ apps) =
      is_taken app >>= λ taken. take_apps apps >>= λ more. pure (if taken then app ∷ more else more)

  abbrev pub listed : List (Diagnosed S) → Dict (Option AppResult) → Dict (Option AppResult)
  listed [] results = results
  listed (app ∷ apps) results = listed apps (insert app.app_id none results)

module _ {S : Type 0} (exception_text : S → String) where
  -- One app of the second loop
  abbrev pub result_of : Option (List DiagnosticCheck) → S → AppResult
  result_of none s = record {
    diagnosis = [];
    exception = some (exception_text s);
    show_repair = false;
  }
  result_of (some checks) s = record {
    diagnosis = checks;
    exception = none;
    show_repair = any needs_repair checks;
  }

  -- The second loop of _run_on_all_enabled_modules, from an index, for a number of apps
  unfoldable pub diagnose_loop : ℕ → ℕ → List (Diagnosed S) → Results → S → Results × S
  diagnose_loop total index [] current s = (current, s)
  diagnose_loop total index (app ∷ apps) current s =
      let call = app.diagnose s in
      diagnose_loop total (index + 1) apps
        (record {
          results = insert app.app_id (some (result_of call.0 call.1)) current.results;
          progress_percentage = (index + 1) * 100 / total;
        })
        call.1

  -- _run_on_all_enabled_modules
  unfoldable pub run_on_all_enabled_modules : List (Diagnosed S) → M S Results
  unfolding diagnose_loop take_apps
  run_on_all_enabled_modules all = take_apps all >>= λ apps s.
      let (current, s') =
        diagnose_loop (length apps) 0 apps
          (record { results = listed apps []; progress_percentage = 0 }) s in
      (some current, s')

-- What _run_diagnostics counts: the issues, whether the severity is 'error', and `apps_with_issues`
pub record Summary : Type 0 where
  pub issue_count : ℕ
  pub is_error : Bool
  pub apps_with_issues : List String

-- The truth of `app_data['exception']`
unfoldable pub is_exception : Option String → Bool
is_exception none = false
is_exception (some text) = not (text == "")

unfoldable pub is_issue : DiagnosticCheck → Bool
is_issue check = elim check.result [
  | passed ↦ false
  | not_done ↦ false
  | skipped ↦ false
  | _ ↦ true
]

unfoldable pub is_warning : DiagnosticCheck → Bool
is_warning check = elim check.result [ warning ↦ true | _ ↦ false ]

abbrev pub add_app : String → List String → List String
add_app id ids = if contains id ids then ids else ids ++ id ∷ []

unfoldable pub count_issue : String → DiagnosticCheck → Summary → Summary
unfolding is_warning
count_issue id check sum = record {
  issue_count = sum.issue_count + 1;
  is_error = if is_warning check then sum.is_error else true;
  apps_with_issues = add_app id sum.apps_with_issues;
}

abbrev pub count_issue_if : Bool → String → DiagnosticCheck → Summary → Summary
count_issue_if true id check sum = count_issue id check sum
count_issue_if false id check sum = sum

unfoldable pub count_checks : String → List DiagnosticCheck → Summary → Summary
unfolding is_issue count_issue
count_checks id [] sum = sum
count_checks id (check ∷ checks) sum =
    count_checks id checks (count_issue_if (is_issue check) id check sum)

abbrev pub count_exception : Summary → Summary
count_exception sum = record sum { issue_count = sum.issue_count + 1; is_error = true }

abbrev pub count_app_if : Bool → String → AppResult → Summary → Summary
count_app_if true id result sum = count_exception sum
count_app_if false id result sum = count_checks id result.diagnosis sum

unfoldable pub count_app : String → AppResult → Summary → Summary
unfolding is_exception count_checks
count_app id result sum = count_app_if (is_exception result.exception) id result sum

-- The loop of _run_diagnostics; `none` is the KeyError of an app without a result.
unfoldable pub summarize : Dict (Option AppResult) → Summary → Option Summary
unfolding count_app
summarize [] sum = some sum
summarize ((id, none) ∷ results) sum = none
summarize ((id, some result) ∷ results) sum = summarize results (count_app id result sum)

-- The key-value store, the notification 'diagnostics-background', and the repair of an app
pub record Desk (S : Type 0) : Type 0 where
  pub store_results : Dict (Option AppResult) → M S (Unit {0})
  pub delete_notification : M S (Unit {0})
  pub notify : ℕ → Bool → M S (Unit {0})
  pub is_automatic_repair_enabled : S → Bool
  pub run_repair_on_app : String → M S (Unit {0})

abbrev pub no_issues : Summary
no_issues = record { issue_count = 0; is_error = false; apps_with_issues = [] }

module _ {S : Type 0} (exception_text : S → String) (desk : Desk S) where
  abbrev pub repair_apps : List String → M S (Unit {0})
  repair_apps ids s =
      if desk.is_automatic_repair_enabled s
      then for_each desk.run_repair_on_app ids s
      else (some tt, s)

  abbrev pub report : Option Summary → M S (Unit {0})
  report none = raise
  report (some sum) =
      if nat_eq sum.issue_count 0
      then desk.delete_notification
      else (desk.notify sum.issue_count sum.is_error >> repair_apps sum.apps_with_issues)

  -- _run_diagnostics
  unfoldable pub run_diagnostics : List (Diagnosed S) → M S (Unit {0})
  unfolding run_on_all_enabled_modules summarize
  run_diagnostics all = run_on_all_enabled_modules exception_text all >>= λ current.
      (desk.store_results current.results >> report (summarize current.results no_issues))
