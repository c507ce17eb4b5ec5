-- ===== src/Backups/Schedule/Tests.antt =====
-- The schedule over a repository of two archives, one of which it made.
use freedom_box.Base.{
  ℕ, String, ◌≡◌, refl, Bool, true, false, inl, inr, ◌||◌, ◌==◌, Bool-cases, some-injective, eq_iff,
  subst, ap, ◌∙◌, Option, none, some, List, [], ◌∷◌, arith, contains, keep_if,
}
use freedom_box.Backups.Dates.{
  DateTime, min_time, before, stamp, replace, days_in_month, is_leap, is_sunday,
}
use freedom_box.Backups.Schedule.Defs.{
  Schedule, Archive, Comment, other, Scheduled, no_times, is_backup_too_soon, recent_times,
  list_scheduled, due_periods, too_long_since_last_backup, next_monthly, time_for_periods,
  disabled_periods, note_archive,
}
use freedom_box.Backups.Schedule.Run.{
  Repository, Clock, run_cleanup, run_schedule, run_enabled, run_backup, cleanup_loop, is_kept,
  tally, periods_of_run, archive_name, scheduled_comment,
}
use freedom_box.Backups.Schedule.Laws.{
  IsRepository, HasUniqueNames, names, insert_newest_first, without_name,
}
use freedom_box.Backups.Schedule.Times.{IsLatest, recent_times-IsLatest, monthly_not_overdue}
use freedom_box.Backups.Schedule.Newest.{is_to_keep, run_cleanup-is_to_keep}
use freedom_box.Backups.Schedule.Again.{run_schedule_again}

-- A repository in memory, with a time and a name for the next archive. It refuses a name that it has.
record Memory : Type 0 where
  archives : List Archive
  unique : HasUniqueNames archives
  next_name : String
  next_start : DateTime

contains-insert_newest_first :
    (x : String) (a : Archive) (l : List Archive)
    → contains x (names (insert_newest_first a l)) ≡ (a.name == x || contains x (names l))
contains-insert_newest_first x a [] = refl
contains-insert_newest_first x a (b ∷ l) = ground (arith, contains-insert_newest_first x a l)

HasUniqueNames-insert :
    (a : Archive) (l : List Archive)
    → contains a.name (names l) ≡ false
    → HasUniqueNames l
    → HasUniqueNames (insert_newest_first a l)
HasUniqueNames-insert a [] new u = (refl, tt)
HasUniqueNames-insert a (b ∷ l) new u = elim (Bool-cases (before a.start b.start)) [
  | inl e ↦ rw e (
    ground (
      arith,
      contains-insert_newest_first b.name a l,
      eq_iff a.name b.name,
      eq_iff b.name a.name,
      u.0,
    ),
    HasUniqueNames-insert a l (ground arith) u.1,
  )
  | inr e ↦ rw e (new, u)
]

contains-without_name :
    (x n : String) (l : List Archive)
    → contains x (names l) ≡ false
    → contains x (names (without_name n l)) ≡ false
contains-without_name x n [] e = refl
contains-without_name x n (b ∷ l) e = ground (arith, contains-without_name x n l)

HasUniqueNames-without_name :
    (n : String) (l : List Archive) → HasUniqueNames l → HasUniqueNames (without_name n l)
HasUniqueNames-without_name n [] u = tt
HasUniqueNames-without_name n (b ∷ l) u = elim (Bool-cases (b.name == n)) [
  | inl e ↦ rw e (HasUniqueNames-without_name n l u.1)
  | inr e ↦ rw e (contains-without_name b.name n l u.0, HasUniqueNames-without_name n l u.1)
]

abbrev create_in :
    (a : Archive) (m : Memory) (b : Bool)
    → contains a.name (names m.archives) ≡ b
    → Option (Unit {0}) × Memory
create_in a m true e = (none, m)
create_in a m false e = (
  some tt,
  record m {
    archives = insert_newest_first a m.archives;
    unique = HasUniqueNames-insert a m.archives e m.unique;
  },
)

abbrev new_archive : String → Comment → Memory → Archive
new_archive n c m = record { name = n; start = m.next_start; comment = c }

abbrev memory : Repository Memory
memory = record {
  prepare = λ m. (some tt, m);
  list_archives = λ m. some m.archives;
  generate_archive_name = λ m. m.next_name;
  create_archive = λ n app_ids c m. create_in (new_archive n c m) m _ refl;
  delete_archive = λ n m. (
    some tt,
    record m {
      archives = without_name n m.archives;
      unique = HasUniqueNames-without_name n m.archives m.unique;
    },
  );
  cleanup = λ m. (some tt, m);
}

created_in :
    (a : Archive) (m : Memory) (b : Bool) (e : contains a.name (names m.archives) ≡ b)
    → (create_in a m b e).0 ≡ some tt
    → (create_in a m b e).1.archives ≡ insert_newest_first a m.archives
created_in a m true e d = absurd (ground arith)
created_in a m false e d = refl

memory-IsRepository : IsRepository memory
memory-IsRepository = record {
  started = λ m. m.next_start;
  prepared = λ m e. refl;
  unique = λ m l e. subst HasUniqueNames (some-injective m.archives l e) m.unique;
  created = λ n app_ids c m l d e. ap some (
      created_in (new_archive n c m) m _ refl d
      ∙ ap (insert_newest_first (new_archive n c m)) (some-injective m.archives l e));
  deleted = λ n m l d e. ap (λ x. some (without_name n x)) (some-injective m.archives l e);
  cleaned = λ m e. refl;
}

abbrev may : ℕ → ℕ → DateTime
may day hour = record min_time { year = 2024; month = 5; day = day; hour = hour }

-- The last day of August.
abbrev end_of_august : DateTime
end_of_august = record min_time { year = 2024; month = 8; day = 31; hour = 2 }

abbrev last_archive : Archive
last_archive = record {
  name = "scheduled: daily: 3";
  start = may 3 2;
  comment = scheduled_comment ("daily" ∷ []);
}

abbrev by_hand : Archive
by_hand = record { name = "by hand"; start = may 2 9; comment = other }

abbrev older_archive : Archive
older_archive = record {
  name = "scheduled: daily: 1";
  start = may 1 2;
  comment = scheduled_comment ("daily" ∷ []);
}

abbrev disk : Memory
disk = record {
  archives = last_archive ∷ by_hand ∷ older_archive ∷ [];
  unique = (refl, (refl, (refl, tt)));
  next_name = "4";
  next_start = may 4 3;
}

-- One archive a day is kept, and none for longer.
abbrev one_a_day : Schedule
one_a_day = record {
  repository_uuid = "root";
  enabled = true;
  daily_to_keep = 1;
  weekly_to_keep = 0;
  monthly_to_keep = 0;
  run_at_hour = 2;
  unselected_apps = [];
}

abbrev clock : ℕ → ℕ → Clock
clock day hour = record {
  listed = may day hour;
  soon = may day hour;
  long = may day hour;
  hour = may day hour;
  cleaned = may day hour;
}

abbrev scheduled_archives : List Scheduled
scheduled_archives =
    record {
      name = "scheduled: daily, weekly: 2";
      start = may 3 2;
      periods = "daily" ∷ "weekly" ∷ [];
    }
    ∷ record { name = "scheduled: daily: 1"; start = may 2 2; periods = "daily" ∷ [] }
    ∷ []

recent_times-IsLatest_example :
    IsLatest "daily" min_time scheduled_archives (recent_times no_times scheduled_archives).daily
    × IsLatest "weekly" min_time scheduled_archives
        (recent_times no_times scheduled_archives).weekly
    × IsLatest "monthly" min_time scheduled_archives
        (recent_times no_times scheduled_archives).monthly
recent_times-IsLatest_example = recent_times-IsLatest scheduled_archives

monthly_not_overdue_example :
    contains "monthly" (
      too_long_since_last_backup
        (record end_of_august { month = 12 })
        (record { daily = min_time; weekly = min_time; monthly = end_of_august }))
    ≡ false
unfolding stamp days_in_month
monthly_not_overdue_example =
    monthly_not_overdue (record end_of_august { month = 12 })
      (record { daily = min_time; weekly = min_time; monthly = end_of_august }) (omega arith)
      (omega arith)

run_cleanup-is_to_keep_example :
    memory.list_archives (run_cleanup memory one_a_day (may 4 3) disk).1
    ≡ some (keep_if (is_to_keep (may 4 3) one_a_day disk.archives) disk.archives)
unfolding cleanup_loop list_scheduled stamp is_kept tally
run_cleanup-is_to_keep_example =
    run_cleanup-is_to_keep memory memory-IsRepository one_a_day (may 4 3) disk disk.archives refl
      (((refl, (refl, tt)), ((refl, tt), (tt, tt)))) (unfold run_cleanup in refl)

-- The older archive of the schedule goes, and the one that was made by hand stays.
older_goes :
    keep_if (is_to_keep (may 4 3) one_a_day disk.archives) disk.archives
    ≡ last_archive ∷ by_hand ∷ []
unfolding stamp
older_goes = refl

run_schedule_again_example :
    run_schedule memory one_a_day
      (clock 4 4)
      []
      (run_schedule memory one_a_day (clock 4 2) [] disk).1
    ≡ (some false, (memory.prepare (run_schedule memory one_a_day (clock 4 2) [] disk).1).1)
unfolding run_schedule run_enabled periods_of_run run_backup run_cleanup cleanup_loop is_kept tally
    archive_name is_backup_too_soon recent_times list_scheduled due_periods
    too_long_since_last_backup next_monthly time_for_periods disabled_periods note_archive stamp
    replace days_in_month is_leap is_sunday memory-IsRepository
run_schedule_again_example =
    run_schedule_again memory memory-IsRepository one_a_day (clock 4 2) (clock 4 4) [] [] disk
      disk.archives refl refl (refl, (refl, (refl, tt))) refl refl refl
