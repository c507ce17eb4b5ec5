-- ===== src/Backups/Schedule/Again.antt =====
-- Whole runs: one that makes no backup, and one that follows a backup too soon.
use freedom_box.Base.{
  String, ◌≡◌, ◌≢◌, refl, sym, ◌∙◌, ap, ◌⊎◌, true, false, Option, none, some, List, [], ◌∷◌, arith,
}
use mathlib.Core.List.{cons≢nil}
use freedom_box.Effect.{continue-some}
use freedom_box.Backups.Dates.{DateTime, before, seconds, differs_less}
use freedom_box.Backups.Schedule.Defs.{
  Schedule, Archive, list_scheduled, recent_times, no_times, is_backup_too_soon,
  too_long_since_last_backup, time_for_periods, disabled_periods, due_periods,
}
use freedom_box.Backups.Schedule.Run.{
  pure, Repository, Clock, run_backup, run_cleanup, run_periods, run_or_skip, periods_of_run,
  run_enabled, run_schedule, scheduled_comment, archive_name, ◌>>=◌, ◌>>◌, or_raise,
}
use freedom_box.Backups.Schedule.Laws.{IsRepository, insert_newest_first}
use freedom_box.Backups.Schedule.Cleanup.{survivors}
use freedom_box.Backups.Schedule.Cleaned.{run_cleanup-survivors}
use freedom_box.Backups.Schedule.Trigger.{survivors-new, too_soon_after}

module _ {R : Type 0} (repository : Repository R) (s : Schedule) where
  run_periods-false :
      (app_ids : List String) (now : DateTime) (ps : List String) (r : R)
      → (run_periods repository s app_ids now ps r).0 ≡ some false
      → (run_periods repository s app_ids now ps r).1 ≡ r
  run_periods-false app_ids now [] r e = refl
  run_periods-false app_ids now (p ∷ ps) r e = absurd (ground arith)

-- A run that returns False has called nothing on the repository but `prepare`: no archive is made or
-- deleted.
pub run_schedule_skips :
    {R : Type 0} (repository : Repository R) (s : Schedule) (clock : Clock) (app_ids : List String)
    (r : R)
    → (run_schedule repository s clock app_ids r).0 ≡ some false
    → ((run_schedule repository s clock app_ids r).1 ≡ r)
      ⊎ ((run_schedule repository s clock app_ids r).1 ≡ (repository.prepare r).1)
unfolding run_schedule run_enabled
run_schedule_skips repository s clock app_ids r e = ground (arith)

-- What a run that made a backup has done, from the repository `r` after `prepare`.
record Made {R : Type 0} (repository : Repository R) (s : Schedule) (clock : Clock)
    (app_ids : List String) (l : List Archive) (r r' : R) : Type 0 where
  periods : List String
  listed : periods_of_run s clock l ≡ some periods
  some_due : periods ≢ []
  backed_up : (run_backup repository s app_ids periods r).0 ≡ some tt
  cleaned_up :
      (run_cleanup repository s clock.cleaned (run_backup repository s app_ids periods r).1).0
      ≡ some tt
  final :
      r' ≡ (run_cleanup repository s clock.cleaned (run_backup repository s app_ids periods r).1).1

module _ {R : Type 0} (repository : Repository R) (s : Schedule) (clock : Clock)
    (app_ids : List String) where
  Made-run_or_skip :
      (l : List Archive) (r : R) (o : Option (List String))
      → periods_of_run s clock l ≡ o
      → (run_or_skip repository s app_ids clock.cleaned o r).0 ≡ some true
      → Made repository s clock app_ids l r (run_or_skip repository s app_ids clock.cleaned o r).1
  Made-run_or_skip l r none listed e = absurd (ground arith)
  Made-run_or_skip l r (some []) listed e = absurd (ground arith)
  Made-run_or_skip l r (some (p ∷ ps)) listed e =
      let (_, b, e') =
        continue-some (run_backup repository s app_ids (p ∷ ps) r).0
          (λ _. run_cleanup repository s clock.cleaned >> pure true)
          (run_backup repository s app_ids (p ∷ ps) r).1 e in
      let (_, c, _) = continue-some _ (λ _. pure true) _ e' in
      record {
        periods = p ∷ ps;
        listed = listed;
        some_due = cons≢nil;
        backed_up = b;
        cleaned_up = c;
        final = rw (b, c);
      }

  Made-run_enabled :
      (l : List Archive) (r : R)
      → repository.list_archives (repository.prepare r).1 ≡ some l
      → (run_enabled repository s clock app_ids r).0 ≡ some true
      → Made repository s clock app_ids l
          (repository.prepare r).1
          (run_enabled repository s clock app_ids r).1
  unfolding run_enabled
  Made-run_enabled l r listed e =
      let (_, ready, more) =
        continue-some (repository.prepare r).0
          (λ _. or_raise repository.list_archives >>= λ archives.
            run_or_skip repository s app_ids clock.cleaned (periods_of_run s clock archives))
          (repository.prepare r).1 e in
      rw (ready, listed) (Made-run_or_skip l (repository.prepare r).1 _ refl (rw listed at more))

  prepared_of_true :
      (r : R)
      → (run_schedule repository s clock app_ids r).0 ≡ some true
      → ((repository.prepare r).0 ≡ some tt)
        × (s.enabled ≡ true)
        × (run_schedule repository s clock app_ids r ≡ run_enabled repository s clock app_ids r)
  unfolding run_schedule
  prepared_of_true r e = (unfold run_enabled in ground arith, ground arith, ground arith)

  skipped :
      (l : List Archive) (r : R)
      → s.enabled ≡ true
      → (repository.prepare r).0 ≡ some tt
      → repository.list_archives (repository.prepare r).1 ≡ some l
      → periods_of_run s clock l ≡ none
      → run_schedule repository s clock app_ids r ≡ (some false, (repository.prepare r).1)
  unfolding run_schedule run_enabled
  skipped l r on ready listed e = ground arith

-- No archive of the list starts after the time.
abbrev pub NoneAfter : DateTime → List Archive → Type 0
NoneAfter t [] = Unit
NoneAfter t (a ∷ l) = (before t a.start ≡ false) × NoneAfter t l

insert_newest_first-NoneAfter :
    (a : Archive) (l : List Archive) → NoneAfter a.start l → insert_newest_first a l ≡ a ∷ l
insert_newest_first-NoneAfter a [] h = refl
insert_newest_first-NoneAfter a (b ∷ l) h = rw h.0

due_of_run :
    (s : Schedule) (clock : Clock) (l : List Archive) (ps : List String)
    → periods_of_run s clock l ≡ some ps
    → (too_long : List String) × (time_for : List String) × (ps
        ≡ due_periods too_long time_for (disabled_periods s))
unfolding periods_of_run
due_of_run s clock l ps e =
    let times = recent_times no_times (list_scheduled clock.listed l) in
    (too_long_since_last_backup clock.long times, time_for_periods clock.hour s, ground arith)

module _ {R : Type 0} (repository : Repository R) (laws : IsRepository repository) (s : Schedule)
    (clock : Clock) (app_ids : List String) where
  -- The archive that a backup from `r` makes, and what a run lists at its end.
  abbrev made_archive : R → List String → Archive
  made_archive r ps = record {
    name = archive_name ps (repository.generate_archive_name r);
    start = laws.started r;
    comment = scheduled_comment ps;
  }

  listed_after_backup :
      (r : R) (ps : List String) (l : List Archive)
      → repository.list_archives r ≡ some l
      → (run_backup repository s app_ids ps r).0 ≡ some tt
      → repository.list_archives (run_backup repository s app_ids ps r).1
        ≡ some (insert_newest_first (made_archive r ps) l)
  unfolding run_backup
  listed_after_backup r ps l listed done = laws.created _ _ _ r l done listed

  listed_after_run :
      (l : List Archive) (r r' : R) (made : Made repository s clock app_ids l r r')
      → repository.list_archives r ≡ some l
      → NoneAfter (laws.started r) l
      → repository.list_archives r'
        ≡ some (survivors s clock.cleaned [] (made_archive r made.periods ∷ l))
  listed_after_run l r r' made listed none_after =
      let backed = listed_after_backup r made.periods l listed made.backed_up in
      let first = insert_newest_first-NoneAfter (made_archive r made.periods) l none_after in
      ap repository.list_archives made.final
      ∙ run_cleanup-survivors repository laws s clock.cleaned _ _ (backed ∙ ap some first)
          made.cleaned_up

periods_of_run-none :
    (s : Schedule) (clock : Clock) (l : List Archive)
    → is_backup_too_soon clock.soon (recent_times no_times (list_scheduled clock.listed l)) ≡ true
    → periods_of_run s clock l ≡ none
unfolding periods_of_run
periods_of_run-none s clock l e = rw e

-- What a run lists at its end begins with an archive after which a run makes no backup.
module _ {R : Type 0} (repository : Repository R) (laws : IsRepository repository) (s : Schedule)
    (clock again : Clock) (app_ids : List String) where
  none_due_again :
      (l : List Archive) (r r' : R)
      → Made repository s clock app_ids l r r'
      → repository.list_archives r ≡ some l
      → NoneAfter (laws.started r) l
      → before again.listed (laws.started r) ≡ false
      → differs_less again.soon (laws.started r) (seconds 7200) ≡ true
      → (l' : List Archive) × (repository.list_archives r' ≡ some l')
        × (periods_of_run s again l' ≡ none)
  none_due_again l r r' made listed none_after later early =
      let a = made_archive repository laws s clock app_ids r made.periods in
      let (too_long, time_for, due) = due_of_run s clock l made.periods made.listed in
      let some_due =
        λ (z : due_periods too_long time_for (disabled_periods s) ≡ []). made.some_due (due ∙ z) in
      let marked = ap scheduled_comment due in
      let (m, e) = survivors-new s too_long time_for clock.cleaned a l some_due marked in
      (
        a ∷ m,
        listed_after_run repository laws s clock app_ids l r r' made listed none_after ∙ ap some e,
        periods_of_run-none s again (a ∷ m) (
            too_soon_after s too_long time_for again.listed again.soon a m some_due marked later
              early),
      )

-- When the repository keeps its laws and none of its archives starts after the time at which the new
-- one starts: after a run that made a backup, a run whose times are not before that start, and whose
-- check for too recent backups is less than two hours after it, returns False and calls only
-- `prepare`, provided that succeeds.
pub run_schedule_again :
    {R : Type 0} (repository : Repository R) (laws : IsRepository repository) (s : Schedule)
    (clock again : Clock) (app_ids app_ids' : List String) (r : R) (l : List Archive)
    → repository.list_archives r ≡ some l
    → (run_schedule repository s clock app_ids r).0 ≡ some true
    → NoneAfter (laws.started (repository.prepare r).1) l
    → before again.listed (laws.started (repository.prepare r).1) ≡ false
    → differs_less again.soon (laws.started (repository.prepare r).1) (seconds 7200) ≡ true
    → (repository.prepare (run_schedule repository s clock app_ids r).1).0 ≡ some tt
    → run_schedule repository s again app_ids' (run_schedule repository s clock app_ids r).1
      ≡ (some false, (repository.prepare (run_schedule repository s clock app_ids r).1).1)
run_schedule_again repository laws s clock again app_ids app_ids' r l listed ran none_after later
      early ready =
    let (ready₁, on, same) = prepared_of_true repository s clock app_ids r ran in
    let r₁ = (repository.prepare r).1 in
    let r' = (run_schedule repository s clock app_ids r).1 in
    let listed₁ = laws.prepared r ready₁ ∙ listed in
    let made =
      Made-run_enabled repository s clock app_ids l r listed₁ (ap (λ x. x.0) (sym same) ∙ ran) in
    let (l', listed', none_due) =
      none_due_again repository laws s clock again app_ids l r₁ _ made listed₁ none_after later
        early in
    skipped repository s again app_ids' l' r' on ready
      (laws.prepared r' ready ∙ ap (λ x. repository.list_archives x.1) same ∙ listed') none_due
