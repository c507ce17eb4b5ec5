-- ===== src/Diagnostics/Counted.antt =====
-- The issues of one app, told by the results of its checks, and what the loop counts of them.
use freedom_box.Base.{
  ℕ, ◌+◌, String, ◌≡◌, refl, ap, eq_iff, Bool, true, false, ◌&&◌, ◌||◌, not, Option, none, some,
  List, [], ◌∷◌, ◌==◌, arith, any, if◌then◌else◌, contains, contains-append, length, keep_if,
  Bool-cases, inl, inr,
}
use freedom_box.Dict.{Dict}
use freedom_box.App.Lifecycle.Defs.{DiagnosticCheck, Result, warning, failed, error}
use freedom_box.Diagnostics.Defs.{
  AppResult, Summary, is_exception, is_issue, is_warning, add_app, count_issue, count_issue_if,
  count_checks, count_app_if,
}

-- Every app has a result.
abbrev pub AreFilled : Dict (Option AppResult) → Type 0
AreFilled [] = Unit {0}
AreFilled ((id, none) ∷ results) = ⊥
AreFilled ((id, some result) ∷ results) = AreFilled results

-- A check that failed, ended in an error or warns; one that does more than warn; and an exception
-- whose text is not empty.
abbrev pub is_bad : Result → Bool
is_bad warning = true
is_bad failed = true
is_bad error = true
is_bad _ = false

abbrev pub is_serious : Result → Bool
is_serious failed = true
is_serious error = true
is_serious _ = false

abbrev pub has_text : Option String → Bool
has_text none = false
has_text (some text) = not (text == "")

abbrev pub bad_checks : List DiagnosticCheck → List DiagnosticCheck
bad_checks = keep_if (λ check. is_bad check.result)

-- An exception with a text is one issue, and else each bad check is one.
abbrev pub issues_of : AppResult → ℕ
issues_of r = if has_text r.exception then 1 else length (bad_checks r.diagnosis)

abbrev pub has_error : AppResult → Bool
has_error r = has_text r.exception || any (λ check. is_serious check.result) r.diagnosis

-- There is a bad check, and no exception with a text.
abbrev pub is_to_repair : AppResult → Bool
is_to_repair r = not (has_text r.exception) && any (λ check. is_bad check.result) r.diagnosis

abbrev pub total_issues : Dict (Option AppResult) → ℕ
total_issues [] = 0
total_issues ((id, none) ∷ results) = total_issues results
total_issues ((id, some r) ∷ results) = issues_of r + total_issues results

abbrev pub any_result : (String → AppResult → Bool) → Dict (Option AppResult) → Bool
any_result p [] = false
any_result p ((id, none) ∷ results) = any_result p results
any_result p ((id, some r) ∷ results) = p id r || any_result p results

is_issue_lem : (check : DiagnosticCheck) → is_issue check ≡ is_bad check.result
unfolding is_issue
is_issue_lem check = ground arith

is_serious_lem :
    (check : DiagnosticCheck) → is_serious check.result ≡ (is_issue check && not (is_warning check))
unfolding is_issue is_warning
is_serious_lem check = ground arith

pub is_exception_lem : (e : Option String) → is_exception e ≡ has_text e
unfolding is_exception
is_exception_lem none = refl
is_exception_lem (some text) = refl

contains-add_app :
    (k id : String) (ids : List String) → contains k (add_app id ids) ≡ (contains k ids || id == k)
contains-add_app k id ids = elim (Bool-cases (id == k)) [
  | inl same ↦
      let e = ap (λ x. contains x ids) ((eq_iff id k).0 same) in
      ground (arith, contains-append k ids (id ∷ []), e, same)
  | inr other ↦ ground (arith, contains-append k ids (id ∷ []), other)
]

-- What is added to a summary: issues, an error, and an app to be repaired.
pub record Adds (sum end : Summary) (n : ℕ) (serious : Bool) (k : String) (found : Bool)
    : Type 0 where
  pub count : end.issue_count ≡ sum.issue_count + n
  pub graver : end.is_error ≡ (sum.is_error || serious)
  pub there : contains k end.apps_with_issues ≡ (contains k sum.apps_with_issues || found)

pub Adds-nothing : (sum : Summary) (k : String) → Adds sum sum 0 false k false
Adds-nothing sum k = record { count = omega arith; graver = ground arith; there = ground arith }

pub Adds-both :
    {sum mid end : Summary} {m n : ℕ} {a b : Bool} {k : String} {p q : Bool}
    → Adds sum mid m a k p
    → Adds mid end n b k q
    → Adds sum end (m + n) (a || b) k (p || q)
Adds-both first next = record {
  count = omega (arith, first.count, next.count);
  graver = ground (arith, first.graver, next.graver);
  there = ground (arith, first.there, next.there);
}

count_issue_if-Adds :
    (b : Bool) (id k : String) (check : DiagnosticCheck) (sum : Summary)
    → Adds sum
        (count_issue_if b id check sum)
        (if b then 1 else 0)
        (b && not (is_warning check))
        k
        (b && id == k)
unfolding count_issue
count_issue_if-Adds true id k check sum = record {
  count = refl;
  graver = ground arith;
  there = contains-add_app k id sum.apps_with_issues;
}
count_issue_if-Adds false id k check sum = Adds-nothing sum k

count_checks-Adds :
    (id k : String) (checks : List DiagnosticCheck) (sum : Summary)
    → Adds sum
        (count_checks id checks sum)
        (length (bad_checks checks))
        (any (λ check. is_serious check.result) checks)
        k
        (id == k && any (λ check. is_bad check.result) checks)
unfolding count_checks
count_checks-Adds id k [] sum = record {
  count = omega arith;
  graver = ground arith;
  there = ground arith;
}
count_checks-Adds id k (check ∷ checks) sum =
    let one = count_issue_if-Adds (is_issue check) id k check sum in
    let more = count_checks-Adds id k checks (count_issue_if (is_issue check) id check sum) in
    let bad = is_issue_lem check in
    record {
      count = ground (arith, one.count, more.count, bad);
      graver = ground (arith, one.graver, more.graver, is_serious_lem check);
      there = ground (arith, one.there, more.there, bad);
    }

pub count_app_if-Adds :
    (b : Bool) (id k : String) (r : AppResult) (sum : Summary)
    → b ≡ has_text r.exception
    → Adds sum (count_app_if b id r sum) (issues_of r) (has_error r) k (id == k && is_to_repair r)
count_app_if-Adds true id k r sum e = record {
  count = ground (arith, e);
  graver = ground (arith, e);
  there = ground (arith, e);
}
count_app_if-Adds false id k r sum e =
    let checks = count_checks-Adds id k r.diagnosis sum in
    record {
      count = ground (arith, e, checks.count);
      graver = ground (arith, e, checks.graver);
      there = ground (arith, e, checks.there);
    }
