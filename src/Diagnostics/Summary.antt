-- ===== src/Diagnostics/Summary.antt =====
-- What is counted over the results of all apps.
use freedom_box.Base.{
  String, ◌≡◌, refl, ◌&&◌, Option, none, some, List, [], ◌∷◌, ◌==◌, arith, nat_eq, if◌then◌else◌,
  contains,
}
use mathlib.Core.Path.{ap₂}
use freedom_box.Dict.{Dict}
use freedom_box.Effect.{for_each, ◌>>◌}
use freedom_box.Diagnostics.Expected.{HaveOwnIds, Taken, outcomes, state_after}
use freedom_box.Diagnostics.Defs.{
  Diagnosed, AppResult, Summary, Desk, is_exception, count_app, summarize, no_issues,
  run_diagnostics,
}
use freedom_box.Diagnostics.Filled.{run_on_all_enabled_modules_lem}
use freedom_box.Diagnostics.Counted.{
  AreFilled, has_error, is_to_repair, total_issues, any_result, Adds, Adds-nothing, Adds-both,
  is_exception_lem, count_app_if-Adds,
}

-- The summary of the results from here on
total : (results : Dict (Option AppResult)) (sum : Summary) → AreFilled results → Summary
total [] sum filled = sum
total ((id, none) ∷ results) sum filled = sum
total ((id, some r) ∷ results) sum filled = total results (count_app id r sum) filled

total_lem :
    (results : Dict (Option AppResult)) (sum : Summary) (filled : AreFilled results)
    → summarize results sum ≡ some (total results sum filled)
unfolding summarize total
total_lem [] sum filled = refl
total_lem ((id, none) ∷ results) sum filled = absurd filled
total_lem ((id, some r) ∷ results) sum filled = total_lem results (count_app id r sum) filled

total-Adds :
    (k : String) (results : Dict (Option AppResult)) (sum : Summary) (filled : AreFilled results)
    → Adds sum
        (total results sum filled)
        (total_issues results)
        (any_result (λ id r. has_error r) results)
        k
        (any_result (λ id r. id == k && is_to_repair r) results)
unfolding total count_app
total-Adds k [] sum filled = Adds-nothing sum k
total-Adds k ((id, none) ∷ results) sum filled = absurd filled
total-Adds k ((id, some r) ∷ results) sum filled =
    Adds-both
      (count_app_if-Adds (is_exception r.exception) id k r sum (is_exception_lem r.exception))
      (total-Adds k results (count_app id r sum) filled)

-- The summary of a run in which every app has a result raises no KeyError. Its number of issues is the
-- sum over the apps: 1 for an app whose exception has a text, and for any other app, also one whose
-- exception has an empty text, the number of its checks that failed, ended in an error or warn. Its
-- severity is an error exactly when an app has an exception with a text, or a check that failed or
-- ended in an error. The apps to be repaired are exactly those that have such a check or one that
-- warns, and no exception with a text.
pub summarize_lem :
    (results : Dict (Option AppResult))
    → AreFilled results
    → (end : Summary) × (summarize results no_issues ≡ some end)
      × (end.issue_count ≡ total_issues results)
      × (end.is_error ≡ any_result (λ id r. has_error r) results)
      × ((k : String)
          → contains k end.apps_with_issues
            ≡ any_result (λ id r. id == k && is_to_repair r) results)
summarize_lem results filled =
    let adds = total-Adds "" results no_issues filled in
    (
      total results no_issues filled,
      total_lem results no_issues filled,
      omega (arith, adds.count),
      adds.graver,
      λ k. (total-Adds k results no_issues filled).there,
    )

outcomes-AreFilled :
    {S : Type 0} (exception_text : S → String) (apps : List (Diagnosed S)) (s : S)
    → AreFilled (outcomes exception_text apps s)
outcomes-AreFilled exception_text [] s = tt
outcomes-AreFilled exception_text (app ∷ apps) s =
    outcomes-AreFilled exception_text apps (app.diagnose s).1

-- The diagnostics run, where no two of the diagnosed apps have the same id and no call of the first loop
-- raises: what the apps give is stored. When there is no issue, the notification is deleted; and else
-- there is one, with the number of issues and whether there is an error, and then, if that is enabled,
-- exactly the apps are repaired that have a check that failed, ended in an error or warns, and no
-- exception with a text. An exception with a text is one issue and an error, and each such check of any
-- other app is one issue, and an error if it does more than warn. So an app whose diagnosis raised an
-- exception with a text is an issue, and is not repaired.
pub run_diagnostics_lem :
    {S : Type 0} (exception_text : S → String) (desk : Desk S) (all apps : List (Diagnosed S))
    (s t : S)
    → Taken all s apps t
    → HaveOwnIds apps
    → let results = outcomes exception_text apps t in
      (repaired : List String) × ((k : String)
        → contains k repaired ≡ any_result (λ id r. id == k && is_to_repair r) results)
      × (run_diagnostics exception_text desk all s
          ≡ (desk.store_results results
                >> (if nat_eq (total_issues results) 0
                    then desk.delete_notification
                    else (desk.notify
                          (total_issues results)
                          (any_result (λ id r. has_error r) results)
                        >> λ u.
                            if desk.is_automatic_repair_enabled u
                            then for_each desk.run_repair_on_app repaired u
                            else (some tt, u))))
              (state_after exception_text apps t))
unfolding run_diagnostics
run_diagnostics_lem exception_text desk all apps s t takes own =
    let results = outcomes exception_text apps t in
    let (end, found, count, severity, there) =
      summarize_lem results (outcomes-AreFilled exception_text apps t) in
    (
      end.apps_with_issues,
      there,
      rw (run_on_all_enabled_modules_lem exception_text all apps s t takes own, found)
          (ap₂
            (λ n b.
              (desk.store_results results
                  >> (if nat_eq n 0
                      then desk.delete_notification
                      else (desk.notify n b >> λ u.
                          if desk.is_automatic_repair_enabled u
                          then for_each desk.run_repair_on_app end.apps_with_issues u
                          else (some tt, u))))
                (state_after exception_text apps t))
            count severity),
    )
