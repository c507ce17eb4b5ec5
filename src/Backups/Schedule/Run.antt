-- ===== src/Backups/Schedule/Run.antt =====
-- The run of a schedule over a repository. The repository is an interface: Borg keeps the archives,
-- and each of its operations can raise.
use freedom_box.Base.{
  ℕ, ◌+◌, String, Bool, true, false, ◌&&◌, ◌||◌, not, Option, none, some, List, [], ◌∷◌, leb,
  if◌then◌else◌, contains, keep_if,
}
use Prim.Native.String.{◌++◌ as str_append}
pub use freedom_box.Effect.{M, pure, or_raise, continue, ◌>>=◌, ◌>>◌}
use freedom_box.Backups.Dates.{DateTime}
use freedom_box.Backups.Schedule.Defs.{
  Schedule, Comment, object, Archive, Scheduled, list_scheduled, recent_times, no_times,
  is_backup_too_soon, too_long_since_last_backup, time_for_periods, disabled_periods, due_periods,
}

-- What the schedule calls on a repository of plinth/modules/backups/repository.py.
pub record Repository (R : Type 0) : Type 0 where
  pub prepare : M R (Unit {0})
  pub list_archives : R → Option (List Archive)
  pub generate_archive_name : R → String
  pub create_archive : String → List String → Comment → M R (Unit {0})
  pub delete_archive : String → M R (Unit {0})
  pub cleanup : M R (Unit {0})

-- The values of the calls of datetime.now() in one run, in their order.
pub record Clock : Type 0 where
  pub listed : DateTime
  pub soon : DateTime
  pub long : DateTime
  pub hour : DateTime
  pub cleaned : DateTime

pub record Counts : Type 0 where
  pub daily : ℕ
  pub weekly : ℕ
  pub monthly : ℕ

abbrev pub zero_counts : Counts
zero_counts = record { daily = 0; weekly = 0; monthly = 0 }

abbrev pub add_if : Bool → ℕ → ℕ
add_if b n = if b then n + 1 else n

-- The counts after an archive of these periods.
unfoldable pub tally : Counts → List String → Counts
tally c ps = record {
  daily = add_if (contains "daily" ps) c.daily;
  weekly = add_if (contains "weekly" ps) c.weekly;
  monthly = add_if (contains "monthly" ps) c.monthly;
}

-- The flag `keep` of _run_cleanup, from the counts after the archive.
unfoldable pub is_kept : Schedule → Counts → List String → Bool
is_kept s c ps =
    contains "daily" ps && leb c.daily s.daily_to_keep
    || (contains "weekly" ps && leb c.weekly s.weekly_to_keep
        || contains "monthly" ps && leb c.monthly s.monthly_to_keep)

abbrev pub comma_separated : List String → String
comma_separated [] = ""
comma_separated (p ∷ []) = p
comma_separated (p ∷ ps) = str_append p (str_append ", " (comma_separated ps))

abbrev pub is_nil {ℓ} : {A : Type ℓ} → List A → Bool
is_nil [] = true
is_nil (x ∷ xs) = false

-- The comment that _run_backup serializes.
abbrev pub scheduled_comment : List String → Comment
scheduled_comment periods = object (some "scheduled") (some periods)

unfoldable pub archive_name : List String → String → String
archive_name periods name =
    str_append "scheduled: " (str_append (comma_separated periods) (str_append ": " name))

-- The periods of a run, from the archives that it lists; `none` if one was made too recently.
unfoldable pub periods_of_run : Schedule → Clock → List Archive → Option (List String)
periods_of_run s clock archives =
    let times = recent_times no_times (list_scheduled clock.listed archives) in
    if is_backup_too_soon clock.soon times
    then none
    else some (
        due_periods (too_long_since_last_backup clock.long times) (time_for_periods clock.hour s)
          (disabled_periods s))

module _ {R : Type 0} (repository : Repository R) (s : Schedule) where
  open repository use {
    prepare, list_archives, generate_archive_name, create_archive, delete_archive, cleanup,
  }

  -- Schedule._run_backup, where `app_ids` are the apps of the components for backup
  unfoldable pub run_backup : List String → List String → M R (Unit {0})
  unfolding archive_name
  run_backup app_ids periods = do
    name ← or_raise (λ r. some (generate_archive_name r))
    create_archive (archive_name periods name)
        (keep_if (λ app_id. not (contains app_id s.unselected_apps)) app_ids)
        (scheduled_comment periods)

  -- The loop of Schedule._run_cleanup
  unfoldable pub cleanup_loop : Counts → List Scheduled → M R (Unit {0})
  cleanup_loop c [] = pure tt
  cleanup_loop c (a ∷ rest) =
      let c' = tally c a.periods in
      let more = cleanup_loop c' rest in
      if is_kept s c' a.periods then more else (do delete_archive a.name; more)

  -- Schedule._run_cleanup
  unfoldable pub run_cleanup : DateTime → M R (Unit {0})
  run_cleanup now = do
    archives ← or_raise list_archives
    cleanup_loop zero_counts (list_scheduled now archives)
    cleanup

  abbrev pub run_periods : List String → DateTime → List String → M R Bool
  run_periods app_ids cleaned [] = pure false
  run_periods app_ids cleaned (p ∷ ps) = do
    run_backup app_ids (p ∷ ps)
    run_cleanup cleaned
    pure true

  abbrev pub run_or_skip : List String → DateTime → Option (List String) → M R Bool
  run_or_skip app_ids cleaned none = pure false
  run_or_skip app_ids cleaned (some periods) = run_periods app_ids cleaned periods

  -- Schedule.run_schedule, for an enabled schedule
  unfoldable pub run_enabled : Clock → List String → M R Bool
  run_enabled clock app_ids = do
    prepare
    archives ← or_raise list_archives
    run_or_skip app_ids clock.cleaned (periods_of_run s clock archives)

  -- Schedule.run_schedule
  unfoldable pub run_schedule : Clock → List String → M R Bool
  run_schedule clock app_ids = if not s.enabled then pure false else run_enabled clock app_ids
