-- ===== src/Diagnostics/Filled.antt =====
-- The results are what the apps give, and the progress is a percentage.
use native.Mathlib.Nat.{div-eq_of_eq-mul_left}
use freedom_box.Base.{
  ℕ, ◌+◌, ◌*◌, ◌/◌, ◌≤◌, String, ◌≡◌, ◌∙◌, sym, ap, refl, true, false, ◌||◌, Option, none, some,
  List, [], ◌∷◌, ◌++◌, ◌==◌, any, eq_iff, eq_refl, arith, length, if◌then◌else◌, contains, inl, inr,
  Bool-cases, nat_eq,
}
use mathlib.Core.Path.{ap₂}
use mathlib.Core.List.{append_assoc, append-nil}
use freedom_box.Dict.{Dict, insert, keys}
use freedom_box.Diagnostics.Expected.{
  HaveOwnIds, ids_of, Taken, take_apps-Taken, expected, is_repairable, outcomes, state_after,
}
use freedom_box.App.Lifecycle.Defs.{DiagnosticCheck}
use freedom_box.Diagnostics.Defs.{
  needs_repair, Diagnosed, AppResult, Results, result_of, diagnose_loop, listed,
  run_on_all_enabled_modules,
}

-- The results before the loop: each app has its id alone.
blanks : {S : Type 0} → List (Diagnosed S) → Dict (Option AppResult)
blanks [] = []
blanks (app ∷ apps) = (app.app_id, none) ∷ blanks apps

-- Assigning to a key that is not there, and to one that is.
insert-new :
    (k : String) (r : Option AppResult) (d : Dict (Option AppResult))
    → contains k (keys d) ≡ false
    → insert k r d ≡ d ++ (k, r) ∷ []
insert-new k r [] new = refl
insert-new k r ((j, w) ∷ d) new = ground (arith, insert-new k r d)

insert-there :
    (k : String) (r w : Option AppResult) (d e : Dict (Option AppResult))
    → contains k (keys d) ≡ false
    → insert k r (d ++ (k, w) ∷ e) ≡ d ++ (k, r) ∷ e
insert-there k r w [] e new = ground (arith, eq_refl k)
insert-there k r w ((j, v) ∷ d) e new = ground (arith, insert-there k r w d e)

contains-keys :
    (j k : String) (r : Option AppResult) (d : Dict (Option AppResult))
    → contains j (keys (d ++ (k, r) ∷ [])) ≡ (contains j (keys d) || k == j)
contains-keys j k r [] = ground arith
contains-keys j k r ((i, w) ∷ d) = ground (arith, contains-keys j k r d)

module _ {S : Type 0} where
  -- No id of the apps is a key.
  abbrev AreNew : List (Diagnosed S) → Dict (Option AppResult) → Type 0
  AreNew apps d = (j : String) → contains j (ids_of apps) ≡ true → contains j (keys d) ≡ false

  AreNew-next :
      (app : Diagnosed S) (apps : List (Diagnosed S)) (r : Option AppResult)
      (d : Dict (Option AppResult))
      → contains app.app_id (ids_of apps) ≡ false
      → AreNew (app ∷ apps) d
      → AreNew apps (d ++ (app.app_id, r) ∷ [])
  AreNew-next app apps r d own new j there = elim (Bool-cases (app.app_id == j)) [
    | inl same ↦
        let e = ap (λ x. contains x (ids_of apps)) ((eq_iff app.app_id j).0 same) in
        absurd (ground (arith, there, own, e))
    | inr other ↦
        ground (arith, contains-keys j app.app_id r d, new j (ground (arith, there)), other)
  ]

  AreNew-first :
      (app : Diagnosed S) (apps : List (Diagnosed S)) (d : Dict (Option AppResult))
      → AreNew (app ∷ apps) d
      → contains app.app_id (keys d) ≡ false
  AreNew-first app apps d new = new app.app_id (ground (arith, eq_refl app.app_id))

  listed-blanks :
      (apps : List (Diagnosed S)) (d : Dict (Option AppResult))
      → HaveOwnIds apps
      → AreNew apps d
      → listed apps d ≡ d ++ blanks apps
  unfolding blanks
  listed-blanks [] d own new = sym (append-nil d)
  listed-blanks (app ∷ apps) d own new =
      ap (listed apps) (insert-new app.app_id none d (AreNew-first app apps d new))
      ∙ listed-blanks apps (d ++ (app.app_id, none) ∷ []) own.1
          (AreNew-next app apps none d own.0 new)
      ∙ append_assoc d ((app.app_id, none) ∷ []) (blanks apps)

hundred_percent : (n total : ℕ) → n ≡ total → 1 ≤ n → n * 100 / total ≡ 100
hundred_percent n total e some_app =
    div-eq_of_eq-mul_left (omega (arith, e, some_app)) (omega (arith, e))

needs_repair_lem :
    (checks : List DiagnosticCheck)
    → any needs_repair checks ≡ any (λ check. is_repairable check.result) checks
needs_repair_lem [] = refl
needs_repair_lem (check ∷ checks) = ground (arith, needs_repair_lem checks)

result_of_lem :
    {S : Type 0} (exception_text : S → String) (o : Option (List DiagnosticCheck)) (s : S)
    → result_of exception_text o s ≡ expected exception_text o s
result_of_lem exception_text none s = refl
result_of_lem exception_text (some checks) s =
    ap (λ b. record { diagnosis = checks; exception = none; show_repair = b })
      (needs_repair_lem checks)

module _ {S : Type 0} (exception_text : S → String) where
  -- The loop replaces what is blank by what the apps give.
  diagnose_loop-outcomes :
      (total index percentage : ℕ) (apps : List (Diagnosed S)) (d : Dict (Option AppResult)) (s : S)
      → HaveOwnIds apps
      → AreNew apps d
      → let loop =
          diagnose_loop exception_text total index apps
            (record { results = d ++ blanks apps; progress_percentage = percentage })
            s in
        (loop.0.results ≡ d ++ outcomes exception_text apps s)
        × (loop.1 ≡ state_after exception_text apps s)
  unfolding diagnose_loop blanks
  diagnose_loop-outcomes total index percentage [] d s own new = (refl, refl)
  diagnose_loop-outcomes total index percentage (app ∷ apps) d s own new =
      let call = app.diagnose s in
      let r = some (result_of exception_text call.0 call.1) in
      let loop : Dict (Option AppResult) → Results × S = λ x.
        diagnose_loop exception_text total (index + 1) apps
          (record { results = x; progress_percentage = (index + 1) * 100 / total }) call.1 in
      let next : insert app.app_id r (d ++ blanks (app ∷ apps))
          ≡ (d ++ (app.app_id, r) ∷ []) ++ blanks apps =
        insert-there app.app_id r none d (blanks apps) (AreNew-first app apps d new)
        ∙ sym (append_assoc d ((app.app_id, r) ∷ []) (blanks apps)) in
      let (results, state) =
        diagnose_loop-outcomes total (index + 1) ((index + 1) * 100 / total) apps
          (d ++ (app.app_id, r) ∷ []) call.1 own.1 (AreNew-next app apps r d own.0 new) in
      (
        ap (λ x. (loop x).0.results) next
            ∙ results
            ∙ append_assoc d ((app.app_id, r) ∷ []) (outcomes exception_text apps call.1)
            ∙ ap (λ e. d ++ (app.app_id, some e) ∷ outcomes exception_text apps call.1)
                (result_of_lem exception_text call.0 call.1),
        ap (λ x. (loop x).1) next ∙ state,
      )

  diagnose_loop-progress :
      (total index : ℕ) (apps : List (Diagnosed S)) (current : Results) (s : S)
      → index + length apps ≡ total
      → 1 ≤ length apps
      → (diagnose_loop exception_text total index apps current s).0.progress_percentage ≡ 100
  unfolding diagnose_loop
  diagnose_loop-progress total index [] current s sum some_app = absurd (omega (arith, some_app))
  diagnose_loop-progress total index (app ∷ []) current s sum some_app =
      hundred_percent (index + 1) total sum (omega arith)
  diagnose_loop-progress total index (app ∷ next ∷ apps) current s sum some_app =
      let call = app.diagnose s in
      let r = result_of exception_text call.0 call.1 in
      diagnose_loop-progress total (index + 1) (next ∷ apps)
        (record {
          results = insert app.app_id (some r) current.results;
          progress_percentage = (index + 1) * 100 / total;
        })
        call.1 (omega (arith, sum)) (omega arith)

  progress_lem :
      (apps : List (Diagnosed S)) (results : Dict (Option AppResult)) (s : S)
      → (diagnose_loop exception_text
          (length apps)
          0
          apps
          (record { results = results; progress_percentage = 0 })
          s).0.progress_percentage
        ≡ (if nat_eq (length apps) 0 then 0 else 100)
  unfolding diagnose_loop
  progress_lem [] results s = refl
  progress_lem (app ∷ apps) results s =
      diagnose_loop-progress (length (app ∷ apps)) 0 (app ∷ apps)
        (record { results = results; progress_percentage = 0 }) s (omega arith) (omega arith)
      ∙ ground arith

-- Where no two of the diagnosed apps have the same id, and no call of the first loop raises, the run
-- returns. Its results are, for exactly the apps that need no setup, are enabled and have diagnostics,
-- and in their order, the checks of the diagnosis with no exception and with `show_repair` when one has
-- failed or warns; or, where the diagnosis raised, the text of the exception, no checks and no
-- `show_repair`. The state is the one after the last diagnosis, and the progress is 100 percent, and 0
-- if no app was diagnosed.
pub run_on_all_enabled_modules_lem :
    {S : Type 0} (exception_text : S → String) (all apps : List (Diagnosed S)) (s t : S)
    → Taken all s apps t
    → HaveOwnIds apps
    → run_on_all_enabled_modules exception_text all s ≡ (
      some (record {
        results = outcomes exception_text apps t;
        progress_percentage = if nat_eq (length apps) 0 then 0 else 100;
      }),
      state_after exception_text apps t,
    )
unfolding run_on_all_enabled_modules
run_on_all_enabled_modules_lem {S} exception_text all apps s t takes own =
    let start : Dict (Option AppResult) → Results =
      λ x. record { results = x; progress_percentage = 0 } in
    let loop : Dict (Option AppResult) → Results × S =
      λ x. diagnose_loop exception_text (length apps) 0 apps (start x) t in
    let (results, state) =
      diagnose_loop-outcomes exception_text (length apps) 0 0 apps [] t own (λ j there. refl) in
    let first = listed-blanks apps [] own (λ j there. refl) in
    let progress = progress_lem exception_text apps (listed apps []) t in
    rw (take_apps-Taken all apps s t takes) (
      ap₂ (λ current end. (some current, end))
        (ap₂ (λ r n. record { results = r; progress_percentage = n })
          (ap (λ x. (loop x).0.results) first ∙ results) progress)
        (ap (λ x. (loop x).1) first ∙ state))
